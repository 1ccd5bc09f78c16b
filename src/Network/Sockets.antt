-- ===== src/Network/Sockets.antt =====
-- What the networks of IMClient/Net ask of the system that has to be given back, and how it answers.
-- The calls themselves are the system's; their results are arguments.
use instance_message.Base.{
  ℕ, ◌+◌, Bool, true, Option, none, some, List, [], ◌∷◌, if◌then◌else◌, ◌==◌,
}

-- The calls that take or give back something.
pub data Call : Type 0 where
  wsa_startup wsa_cleanup : Call
  makes_socket closes_socket : ℕ → Call
  starts_thread : ℕ → Call
  waits_for terminates closes_handle : Option ℕ → Call

-- INet: m_sock, `none` being INVALID_SOCKET, m_bRunning, and the handle of the receiving thread.
pub record INet : Type 0 where
  pub sock : Option ℕ
  pub running : Bool
  pub handle : Option ℕ

abbrev pub new_inet : INet
new_inet = record { sock = none; running = true; handle = none }

-- How the calls of `initNet` go: `attached` is whether `connect`, or `bind`, succeeds.
pub record Answers : Type 0 where
  pub startup_ok : Bool
  pub version_ok : Bool
  pub socket : Option ℕ
  pub attached : Bool
  pub listening : Bool
  pub thread : Option ℕ

abbrev pub thread_call : Option ℕ → List Call
thread_call none = []
thread_call (some h) = starts_thread h ∷ []

-- if ( m_sock && INVALID_SOCKET != m_sock ) closesocket( m_sock )
abbrev pub close_sock : Option ℕ → List Call
close_sock none = []
close_sock (some s) = if s == 0 then [] else closes_socket s ∷ []

-- How often the calls give back the socket, or one of them takes it.
abbrev pub made : ℕ → List Call → ℕ
made s [] = 0
made s (makes_socket t ∷ cs) = (if t == s then 1 else 0) + made s cs
made s (c ∷ cs) = made s cs

abbrev pub closed : ℕ → List Call → ℕ
closed s [] = 0
closed s (closes_socket t ∷ cs) = (if t == s then 1 else 0) + closed s cs
closed s (c ∷ cs) = closed s cs

abbrev pub started : List Call → ℕ
started [] = 0
started (wsa_startup ∷ cs) = 1 + started cs
started (c ∷ cs) = started cs

abbrev pub cleaned : List Call → ℕ
cleaned [] = 0
cleaned (wsa_cleanup ∷ cs) = 1 + cleaned cs
cleaned (c ∷ cs) = cleaned cs

-- How often the calls start a thread with a handle, or close the handle.
abbrev pub threads_started : ℕ → List Call → ℕ
threads_started h [] = 0
threads_started h (starts_thread t ∷ cs) = (if t == h then 1 else 0) + threads_started h cs
threads_started h (c ∷ cs) = threads_started h cs

abbrev pub handles_closed : ℕ → List Call → ℕ
handles_closed h [] = 0
handles_closed h (closes_handle (some t) ∷ cs) = (if t == h then 1 else 0) + handles_closed h cs
handles_closed h (c ∷ cs) = handles_closed h cs
