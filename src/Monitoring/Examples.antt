-- ===== src/Monitoring/Examples.antt =====
-- Alerts that are sent and suppressed, and an instance of the theorem.
use intelligent_trading_syst.Base.{
  ℕ, ◌≡◌, refl, true, false, none, some, List, [], ◌∷◌, String, lookup, insert, member, keep_if,
}
use intelligent_trading_syst.Registry.Json.{lower, translate, translate_char}
use intelligent_trading_syst.Monitoring.Urls.{UrlLibrary, is_suffix, validate_outbound_url}
use intelligent_trading_syst.Monitoring.Routing.{
  AlertCategory, AlertPriority, resolve_alert_channels, make_key,
}
use intelligent_trading_syst.Monitoring.Alerts.{
  AlertManager, Posting, should_send, kept_times, send_to, send_telegram, send_webhook, send_routed,
}
use intelligent_trading_syst.Monitoring.Throttle.{
  answers_for, times_of, throttle, should_send-throttle,
}

-- A library that knows one URL, whose host is a private address.
abbrev library : UrlLibrary
library = record {
  parse = λ url.
      some (record { scheme = "HTTPS"; hostname = "10.0.0.1"; username = ""; password = "" });
  ip_address = λ host. some (record {
    is_loopback = false;
    is_private = true;
    is_link_local = false;
    is_multicast = false;
    is_unspecified = false;
    is_reserved = false;
  });
}

abbrev manager : AlertManager
manager = record {
  telegram_token = "token";
  line_token = "";
  webhook_url = "https://10.0.0.1/hook";
  dedup = record { window = 300000; seen = []; suppressed_count = 0 };
}

abbrev posting : Posting
posting = λ channel level. some 200

-- A drift alert goes to Telegram; the webhook to a private address is refused.
routed_run :
    (send_routed library posting AlertCategory.reconciliation_drift AlertPriority.p0_emergency
      "BTC/USDT" none 1000 manager).1
    ≡ ("telegram", true) ∷ ("webhook", false) ∷ []
unfolding send_routed should_send kept_times send_to send_telegram send_webhook
    validate_outbound_url is_suffix lower translate translate_char resolve_alert_channels make_key
    lookup insert member keep_if
routed_run = refl

abbrev calls : List (String × ℕ)
calls = ("a", 0) ∷ ("b", 10) ∷ ("a", 299999) ∷ ("a", 300000) ∷ []

throttle_run : throttle 300000 none (times_of "a" calls) ≡ true ∷ false ∷ true ∷ []
throttle_run = refl

should_send-throttle_example :
    answers_for "a" calls (record { window = 300000; seen = []; suppressed_count = 0 })
    ≡ throttle 300000 none (times_of "a" calls)
should_send-throttle_example = should_send-throttle "a" calls 300000
