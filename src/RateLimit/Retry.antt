-- ===== src/RateLimit/Retry.antt =====
-- The Retry-After of internal/middleware/ratelimit.go.
use weiyeston.Base.{text_eq}
use weiyeston.RateLimit.{Store}
