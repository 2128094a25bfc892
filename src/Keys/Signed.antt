-- ===== src/Keys/Signed.antt =====
-- A signature by a user's keys verifies under the public key of the same keys.
use go_sdk_test.Common.{string_eq}
