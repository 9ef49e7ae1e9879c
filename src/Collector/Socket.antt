-- ===== src/Collector/Socket.antt =====
-- Start of agent/collector/collector.go: the socket's file, and the calls of the system that may fail.
use compute_sentry.Prelude.{
  Bool, true, false, not, ◌&&◌, ◌||◌, ℕ, Option, none, some, ◌≡◌, ◌≢◌, arith, if◌then◌else◌,
}

-- The file at the socket's path, with its mode, and whether this process reads datagrams from it.
pub record SocketFile : Type 0 where
  pub exists : Bool
  pub mode : ℕ
  pub is_read : Bool

-- Which calls fail for a reason of the system's, and the mode that a new socket has.
pub record SocketCalls : Type 0 where
  pub stat_fails : Bool
  pub remove_fails : Bool
  pub resolve_fails : Bool
  pub bind_fails : Bool
  pub chmod_fails : Bool
  pub new_mode : ℕ

pub data SocketError : Type 0 where
  resolve_error bind_error chmod_error : SocketError

-- 0777
abbrev pub socket_mode : ℕ
socket_mode = 511

-- Stat, and Remove where there is a file, whose error is not looked at.
unfoldable pub remove_stale : SocketCalls → SocketFile → SocketFile
remove_stale calls file =
    if file.exists && not calls.stat_fails && not calls.remove_fails
    then record file { exists = false; is_read = false }
    else file

-- Chmod, and the start of the loop; the connection stays open where Chmod fails.
unfoldable pub open_socket : SocketCalls → SocketFile × Option SocketError
open_socket calls =
    if calls.chmod_fails
    then (record { exists = true; mode = calls.new_mode; is_read = false }, some chmod_error)
    else (record { exists = true; mode = socket_mode; is_read = true }, none)

-- ListenUnixgram binds the path, which fails where a file is in the way.
unfoldable pub start_socket : SocketCalls → SocketFile → SocketFile × Option SocketError
unfolding remove_stale open_socket
start_socket calls file =
    let cleared = remove_stale calls file in
    if calls.resolve_fails
    then (cleared, some resolve_error)
    else if cleared.exists || calls.bind_fails
    then (cleared, some bind_error)
    else open_socket calls

-- The path is free, or can be freed, and the other calls succeed.
abbrev pub is_startable : SocketCalls → SocketFile → Bool
is_startable calls file =
    not calls.resolve_fails
    && not calls.bind_fails
    && not calls.chmod_fails
    && (not file.exists || not calls.stat_fails && not calls.remove_fails)

-- Start returns nil exactly if the path is free, or a file there can be found and removed, and the address
-- resolves, the socket is bound and its mode is set; then everyone may write to the socket and the
-- loop reads it. Where only the mode cannot be set, the socket stays in place and nobody reads it.
pub start_socket_lem :
    (calls : SocketCalls) (file : SocketFile)
    → (is_startable calls file ≡ true
        → start_socket calls file
          ≡ (record { exists = true; mode = socket_mode; is_read = true }, none))
      × (is_startable calls file ≡ false → (start_socket calls file).1 ≢ none)
      × ((start_socket calls file).1 ≡ some chmod_error
          → (start_socket calls file).0
            ≡ record { exists = true; mode = calls.new_mode; is_read = false })
unfolding start_socket remove_stale open_socket
start_socket_lem calls file = (λ h. ground arith, λ h. ground arith, λ h. ground arith)
