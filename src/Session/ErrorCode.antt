-- ===== src/Session/ErrorCode.antt =====
-- common/ec-handler.h. Of an asio::error_code the program tells success, the end of a stream and an
-- aborted operation from the rest.
use market_bridge.Base.{ℕ, Bool, true, false}

pub data ErrorCode : Type 0 where
  success eof operation_aborted : ErrorCode
  failure : ℕ → ErrorCode

unfoldable pub is_eof : ErrorCode → Bool
is_eof eof = true
is_eof _ = false

unfoldable pub is_aborted : ErrorCode → Bool
is_aborted operation_aborted = true
is_aborted _ = false

unfoldable pub is_cancelled : ErrorCode → Bool
unfolding is_aborted
is_cancelled ec = is_aborted ec

-- `!ec`; what is logged besides has no effect on the program.
unfoldable pub check_ec : ErrorCode → Bool
check_ec success = true
check_ec _ = false
