-- ===== src/Quality.antt =====
-- internal/quality: rate limits, blocked authors and the rules for each kind of event.
pub mod RateLimit
pub mod KindConfig
pub mod Controller
