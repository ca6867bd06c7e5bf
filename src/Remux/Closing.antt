-- ===== src/Remux/Closing.antt =====
-- What `Close` of gateway/internal/remux/remux.go ends, for good.
use psychic_computing_machin.Common.{nat_eq, list_eq}
