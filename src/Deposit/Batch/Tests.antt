-- ===== src/Deposit/Batch/Tests.antt =====
-- A run of HinkalDepositAndWithdraw with one recipient.
use mathlib.Core.Option
use go_sdk_test.Common.{string_eq, int_eq, nat_eq}
