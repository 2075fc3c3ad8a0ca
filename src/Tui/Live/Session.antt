-- ===== src/Tui/Live/Session.antt =====
-- A session ends by `quit`, or a handler keeps it on.
use terminal_social.Common.{
  ◌==◌, ◌∙◌, ℕ, ◌≡◌, refl, ◌⊎◌, inl, inr, Bool, true, false, List, [], ◌∷◌, if◌then◌else◌,
}
use terminal_social.Text.{Bytes}
use terminal_social.Hub.{is_open}
use terminal_social.Hub.Consistency.{IsConsistent}
use terminal_social.Hub.Consistency.Sessions.{unsubscribe-Survives}
use terminal_social.Hub.Consistency.Reachable.{unsubscribe-closes, unsubscribe-is_open}
use terminal_social.Tui.{Screen, Library, Cmd, quit}
use terminal_social.Tui.Ui.{Ui, give, look, change, tell, ◌>>=◌}
use terminal_social.Tui.Commands.{disconnect, cleanup, quit_app, dispatch, run_words, run_slash}
use terminal_social.Tui.Live.{
  IsLive, Subs, Reaches, Reaches-map, Keeps, >>=-Reaches, Keeps-Runs, give-Keeps,
}
use terminal_social.Tui.Live.Channels.{handlers}
use terminal_social.Tui.Live.Commands.{
  leave_cmd-Keeps, topic_cmd-Keeps, delete_cmd-Keeps, report_cmd-Keeps, keys_cmd-Keeps,
  notifications_cmd-Keeps, profile_cmd-Keeps,
}
use terminal_social.Tui.Live.Dispatch.{
  join_cmd-Keeps, create_cmd-Keeps, invite_cmd-Keeps, remove_cmd-Keeps, msg_cmd-Keeps,
  whois_cmd-Keeps, block_cmd-Keeps, unblock_cmd-Keeps, search_cmd-Keeps, me_cmd-Keeps,
  addkey_cmd-Keeps,
}

-- The subscription of the session is closed and forgotten, and `OnDisconnect` has been called.
pub record IsOver (sub : Subs) (s : Screen) : Type 0 where
  pub consistent : IsConsistent s.hub
  pub forgotten : s.app.hub_sub ≡ 0
  pub closed : is_open sub.own s.hub.channels ≡ false
  pub others : (t : ℕ) → (t == sub.own) ≡ false → is_open t s.hub.channels ≡ sub.was t
  pub told : s.disconnected ≡ true

abbrev pub Ends : Subs → Cmd → Screen → Type 0
Ends sub c s = IsLive sub s ⊎ ((c ≡ quit) × IsOver sub s)

unfoldable pub Finishes : Ui Cmd → Type 0
Finishes m = (sub : Subs) (s : Screen) → IsLive sub s → Reaches (Ends sub) (m s)

pub Keeps-Finishes : (m : Ui Cmd) → Keeps m → Finishes m
unfolding Finishes
Keeps-Finishes m k sub s live =
    Reaches-map (λ _ t. IsLive sub t) (Ends sub) (m s) (Keeps-Runs m sub s k live) (λ c t l. inl l)

pub >>=-Finishes :
    {A : Type 0} (m : Ui A) (f : A → Ui Cmd)
    → Keeps m
    → ((a : A) → Finishes (f a))
    → Finishes (m >>= f)
unfolding Finishes
>>=-Finishes m f k h sub s live =
    >>=-Reaches m f (λ _ t. IsLive sub t) (Ends sub) s (Keeps-Runs m sub s k live)
      (λ a t l. h a sub t l)

pub if-Finishes :
    (b : Bool) (m k : Ui Cmd) → Finishes m → Finishes k → Finishes (if b then m else k)
if-Finishes true m k h h' = h
if-Finishes false m k h h' = h'

pub quit_app-Finishes : Finishes quit_app
unfolding Finishes quit_app cleanup disconnect ◌>>=◌ look tell change give
quit_app-Finishes sub s live =
    let (h, e, c) = unsubscribe-Survives sub.own s.hub live.open_sub live.consistent in
    let s' : Screen = record s {
      app = record (s.app) { hub_sub = 0 };
      hub = h;
      disconnected = true;
    } in
    inl (
      quit,
      s',
      rw (live.own, live.named, e) refl,
      inr (
        refl,
        record {
          consistent = c;
          forgotten = refl;
          closed = unsubscribe-closes sub.own s.hub h e;
          others = λ t n. unsubscribe-is_open sub.own t s.hub h n e ∙ live.others t n;
          told = refl;
        },
      ),
    )

module _ (lib : Library) where
  dispatch-Finishes :
      (cmd : Bytes) (args : List Bytes) (rest : Bytes) → Finishes (dispatch lib cmd args rest)
  unfolding dispatch
  dispatch-Finishes cmd args rest =
      search
        (
          if-Finishes, Keeps-Finishes, quit_app-Finishes, handlers, join_cmd-Keeps, leave_cmd-Keeps,
          create_cmd-Keeps, topic_cmd-Keeps, invite_cmd-Keeps, remove_cmd-Keeps, msg_cmd-Keeps,
          whois_cmd-Keeps, block_cmd-Keeps, unblock_cmd-Keeps, report_cmd-Keeps, delete_cmd-Keeps,
          me_cmd-Keeps, search_cmd-Keeps, profile_cmd-Keeps, addkey_cmd-Keeps, keys_cmd-Keeps,
          notifications_cmd-Keeps,
        )
        depth 40 fits 4000

  run_words-Finishes : (line : Bytes) (words : List Bytes) → Finishes (run_words lib line words)
  run_words-Finishes line [] = Keeps-Finishes _ (give-Keeps _)
  run_words-Finishes line (p ∷ args) = dispatch-Finishes _ args _

  pub run_slash-Finishes : (line : Bytes) → Finishes (run_slash lib line)
  unfolding run_slash
  run_slash-Finishes line = run_words-Finishes line _
