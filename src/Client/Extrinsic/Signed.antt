-- ===== src/Client/Extrinsic/Signed.antt =====
-- src/client.rs, `SignedPayload`: what a user signs.
use sub_script.Libs.{Libs}
