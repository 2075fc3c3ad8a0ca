-- ===== src/Tui/Process.antt =====
-- The process that serves the sessions: each connection runs a program of its own, and all of them
-- share the store and the hub. The runtime hands a program one message at a time, in any order among the
-- programs. It goes on to hand it messages behind `Quit` until it takes up the message that `Quit` sends.
pub mod Safety
use terminal_social.Common.{
  ℕ, Bool, true, false, not, List, [], ◌∷◌, Option, none, some, ◌==◌, if◌then◌else◌,
}
use terminal_social.Text.{Bytes}
use terminal_social.Domain.{User}
use terminal_social.Store.Exec.{Conn}
use terminal_social.Hub.{Hub, new_hub, and_then}
use terminal_social.Tui.{
  App, Screen, Renderer, Library, Cmd, idle, quit, listen, tick, flash, new_app,
}
use terminal_social.Tui.Ui.{Run, ran, crashed}
use terminal_social.Tui.Channels.{init}
use terminal_social.Tui.Update.{Msg, update}

-- What a program has for itself.
pub record Program : Type 0 where
  pub app : App
  pub quota : List Bool
  pub disconnected : Bool
  pub fingerprint : Bytes
  pub running : Bool

-- The programs by the number of their connection.
pub record Process : Type 0 where
  pub conn : Conn
  pub hub : Hub
  pub renderer : Renderer
  pub programs : ℕ → Option Program

abbrev pub screen : ℕ → Process → Program → Screen
screen now w p = record {
  app = p.app;
  conn = w.conn;
  hub = w.hub;
  renderer = w.renderer;
  quota = p.quota;
  disconnected = p.disconnected;
  now = now;
  fingerprint = p.fingerprint;
}

abbrev pub is_quit : Cmd → Bool
is_quit quit = true
is_quit idle = false
is_quit listen = false
is_quit tick = false
is_quit (flash n) = false

abbrev pub program_of : Cmd → Screen → Program
program_of c t = record {
  app = t.app;
  quota = t.quota;
  disconnected = t.disconnected;
  fingerprint = t.fingerprint;
  running = not (is_quit c);
}

abbrev pub put_program : ℕ → Program → (ℕ → Option Program) → ℕ → Option Program
put_program i p ps j = if j == i then some p else ps j

abbrev pub back : ℕ → Process → Run (Cmd × Screen) → Run Process
back i w (crashed e) = crashed e
back i w (ran (c, t)) =
    ran (record w {
      conn = t.conn;
      hub = t.hub;
      programs = put_program i (program_of c t) w.programs;
    })

abbrev pub fresh : User → List Bool → Bytes → Program
fresh u quota fp = record {
  app = new_app u;
  quota = quota;
  disconnected = false;
  fingerprint = fp;
  running = true;
}

-- Connection `i` begins with a program for a user, or its program gets a message.
pub data Move : Type 0 where
  begins : ℕ → ℕ → User → List Bool → Bytes → Move
  hears : ℕ → ℕ → Msg → Move

module _ (lib : Library) where
  abbrev pub begin_at : ℕ → ℕ → User → List Bool → Bytes → Process → Option Program → Run Process
  begin_at now i u quota fp w none = back i w (init (screen now w (fresh u quota fp)))
  begin_at now i u quota fp w (some p) = ran w

  abbrev pub hear_at : ℕ → ℕ → Msg → Process → Option Program → Run Process
  hear_at now i m w none = ran w
  hear_at now i m w (some p) = back i w (update lib m (screen now w p))

  unfoldable pub move : Move → Process → Run Process
  move (begins now i u quota fp) w = begin_at now i u quota fp w (w.programs i)
  move (hears now i m) w = hear_at now i m w (w.programs i)

-- A process that has just started, on any connection to the store.
abbrev pub started : Renderer → Conn → Process
started r c = record { conn = c; hub = new_hub; renderer = r; programs = λ i. none }
