-- ===== src/Ssh/Libssh/Session.antt =====
-- sshpuffin/src/libssh/ssh.rs: the calls of libssh and of the socket that the program under test makes.
use Prim.Native.String.{String}
use tlspuffin.Base.{ℕ, Bool, List, Option, Result}
use tlspuffin.Stream.Defs.{IoError}

-- A C int is the number of its bits.
pub data SshResult : Type 0 where
  ok : SshResult
  again : SshResult
  unknown : ℕ → SshResult

pub data SshAuthResult : Type 0 where
  success : SshAuthResult
  again : SshAuthResult
  partial : SshAuthResult
  denied : SshAuthResult
  unknown : ℕ → SshAuthResult

-- The requests that the code tells apart.
pub data SshRequest : Type 0 where
  request_auth : SshRequest
  other_request : SshRequest

-- The session, the two ends of its socket and what stands behind them are a state `W`. The calls of libssh
-- are parameters, `Msg` is the type of its messages. A read from the socket is given the room that there is.
pub record Session (W Msg : Type 0) : Type 0 where
  pub handle_key_exchange : W → Result String SshResult × W
  pub connect : W → Result String SshResult × W
  pub userauth_password : W → Result String SshAuthResult × W
  pub get_message : W → Option Msg × W
  pub typ : Msg → Result String (Option SshRequest)
  pub auth_reply_success : Msg → W → Result String (Unit {0}) × W
  pub reply_default : Msg → W → Result String (Unit {0}) × W
  pub is_authenticated : W → Bool
  pub receive : ℕ → W → Result IoError (List ℕ) × W
  pub write_all : List ℕ → W → Result IoError (Unit {0}) × W
