-- ===== src/Order/Compensation/Loop.antt =====
-- app/order-service/internal/application/compensation.go: the retries of a list, one after the other.
use ticket_hub.Common.{nat_eq, string_eq, int_eq}
