-- ===== src/Service/Token.antt =====
-- The token that src/config.rs reads is one that src/http/admin.rs lets in.
use aperip_nomos.Text.{Text}
