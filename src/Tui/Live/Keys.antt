-- ===== src/Tui/Live/Keys.antt =====
-- The messages of the runtime.
use terminal_social.Common.{
  ℕ, ◌⊎◌, ◌%◌, ◌<◌, ◌≡◌, inl, inr, arith, Bool, false, List, [], ◌∷◌, length, ◌==◌, get_elem?,
  get_elem?-below, Bool-cases,
}
use terminal_social.Tui.{
  App, Screen, Library, Cmd, Pane, pane_nav, pane_chat, pane_members, Key, ctrl_c, esc, question,
  tab, shift_tab, pgup, pgdown, enter, up, down, key_j, key_k, other,
}
use terminal_social.Tui.Ui.{ran, crashed, bad_slice, give}
use terminal_social.Tui.Nav.{
  Target, room_item, peer_item, ChanItem, nav_items, current_nav_idx, find_item, or_first, activate,
  activate_at, nav_move, nav_activate,
}
use terminal_social.Tui.Update.{
  Msg, window_size, tick_msg, disconnect_msg, hub_event, info, key, on_tick, update_nav,
  update_pane, pass_on, on_key, update_key, update,
}
use terminal_social.Tui.Events.{handle_hub_event}
use terminal_social.Tui.Live.{
  IsLive, Subs, Runs, Keeps, look-Keeps, Keeps-Runs, give-Keeps, look_only-Keeps,
}
use terminal_social.Tui.Live.Channels.{handlers, open_room-Keeps, open_dm-Keeps}
use terminal_social.Tui.Live.Events.{HasMessage, handle_hub_event-Keeps}
use terminal_social.Tui.Live.Session.{
  Ends, Finishes, Keeps-Finishes, >>=-Finishes, if-Finishes, quit_app-Finishes,
}
use terminal_social.Tui.Live.Chat.{update_chat-Finishes}

-- The events of the hub that announce a message carry it.
abbrev pub HasContent : Msg → Type 0
HasContent (hub_event ev) = HasMessage ev.kind ev.message
HasContent window_size = Unit
HasContent tick_msg = Unit
HasContent disconnect_msg = Unit
HasContent (info n) = Unit
HasContent (key k) = Unit

module _ (lib : Library) where
  activate-Keeps : (t : Target) → Keeps (activate t)
  activate-Keeps (room_item rid) = open_room-Keeps rid
  activate-Keeps (peer_item pid) = open_dm-Keeps pid

  -- An entry that is there can be opened.
  activate_at-Runs :
      (its : List ChanItem) (i : ℕ) (sub : Subs) (s : Screen)
      → i < length its
      → IsLive sub s
      → Runs sub (activate_at (get_elem? its i)) s
  activate_at-Runs its i sub s h live =
      let (it, e) = get_elem?-below its i h in
      rw e (Keeps-Runs (activate it.target) sub s (activate-Keeps it.target) live)

  below_n : (n i : ℕ) → (n == 0) ≡ false → i % n < n
  below_n n i e = ground (arith, e)

  nav_move-Keeps : (forward : Bool) → Keeps (nav_move forward)
  unfolding nav_move
  nav_move-Keeps forward =
      look-Keeps (λ s. s.app) _
        (λ sub s live. elim (Bool-cases (length (nav_items s.app) == 0)) [
          | inl e ↦ rw e (Keeps-Runs (give tt) sub s (give-Keeps tt) live)
          | inr e ↦ rw e (
              activate_at-Runs (nav_items s.app) _ sub s (below_n (length (nav_items s.app)) _ e)
                live)
        ])

  find_item-below :
      (a : App) (its : List ChanItem)
      → (length its == 0) ≡ false
      → or_first (find_item a its) < length its
  unfolding find_item
  find_item-below a [] h = absurd (ground (arith, h))
  find_item-below a (it ∷ []) h = ground arith
  find_item-below a (it ∷ jt ∷ its) h = ground (arith, find_item-below a (jt ∷ its) (ground arith))

  nav_activate-Keeps : Keeps nav_activate
  unfolding nav_activate current_nav_idx
  nav_activate-Keeps =
      look-Keeps (λ s. s.app) _
        (λ sub s live. elim (Bool-cases (length (nav_items s.app) == 0)) [
          | inl e ↦ rw e (Keeps-Runs (give tt) sub s (give-Keeps tt) live)
          | inr e ↦ rw e (
              activate_at-Runs (nav_items s.app) _ sub s (find_item-below s.app (nav_items s.app) e)
                live)
        ])

  update_nav-Keeps : (k : Key) → Keeps (update_nav lib k)
  update_nav-Keeps key_j = search (handlers, nav_move-Keeps)
  update_nav-Keeps down = search (handlers, nav_move-Keeps)
  update_nav-Keeps key_k = search (handlers, nav_move-Keeps)
  update_nav-Keeps up = search (handlers, nav_move-Keeps)
  update_nav-Keeps enter = search (handlers, nav_activate-Keeps)
  update_nav-Keeps esc = give-Keeps _
  update_nav-Keeps ctrl_c = give-Keeps _
  update_nav-Keeps question = give-Keeps _
  update_nav-Keeps tab = give-Keeps _
  update_nav-Keeps shift_tab = give-Keeps _
  update_nav-Keeps pgup = give-Keeps _
  update_nav-Keeps pgdown = give-Keeps _
  update_nav-Keeps (other c) = give-Keeps _

  update_pane-Finishes : (p : Pane) (k : Key) → Finishes (update_pane lib p k)
  update_pane-Finishes pane_nav k = Keeps-Finishes _ (update_nav-Keeps k)
  update_pane-Finishes pane_chat k = update_chat-Finishes lib k
  update_pane-Finishes pane_members k = Keeps-Finishes _ (give-Keeps _)

  pass_on-Finishes : (k : Key) → Finishes (pass_on lib k)
  pass_on-Finishes k = search (>>=-Finishes, look_only-Keeps, update_pane-Finishes)

  on_key-Finishes : (k : Key) → Finishes (on_key lib k)
  on_key-Finishes ctrl_c = quit_app-Finishes
  on_key-Finishes question =
      search (>>=-Finishes, if-Finishes, Keeps-Finishes, handlers, update_pane-Finishes)
  on_key-Finishes esc = search (Keeps-Finishes, handlers)
  on_key-Finishes tab = search (Keeps-Finishes, handlers)
  on_key-Finishes shift_tab = search (Keeps-Finishes, handlers)
  on_key-Finishes pgup = search (Keeps-Finishes, handlers)
  on_key-Finishes pgdown = search (Keeps-Finishes, handlers)
  on_key-Finishes enter = pass_on-Finishes enter
  on_key-Finishes up = pass_on-Finishes up
  on_key-Finishes down = pass_on-Finishes down
  on_key-Finishes key_j = pass_on-Finishes key_j
  on_key-Finishes key_k = pass_on-Finishes key_k
  on_key-Finishes (other c) = pass_on-Finishes (other c)

  update_key-Finishes : (k : Key) → Finishes (update_key lib k)
  unfolding update_key
  update_key-Finishes k =
      search (>>=-Finishes, if-Finishes, Keeps-Finishes, handlers, on_key-Finishes) depth 12

  on_tick-Keeps : Keeps on_tick
  unfolding on_tick
  on_tick-Keeps = search handlers

  update-Finishes : (m : Msg) → HasContent m → Finishes (update lib m)
  unfolding update
  update-Finishes window_size h = search (Keeps-Finishes, handlers)
  update-Finishes tick_msg h = Keeps-Finishes _ on_tick-Keeps
  update-Finishes disconnect_msg h = quit_app-Finishes
  update-Finishes (hub_event ev) h =
      let heard : Keeps (handle_hub_event ev) = handle_hub_event-Keeps ev h in
      search (Keeps-Finishes, handlers, heard)
  update-Finishes (info n) h = search (Keeps-Finishes, handlers)
  update-Finishes (key k) h = update_key-Finishes k

  -- If a session is on (the hub is consistent, its own subscription is open, and the index into the texts
  -- that it has sent lies among them or just behind), then, whatever calls of the database fail on the
  -- way, and whatever the message of the runtime, a key, a tick, the end of the connection or an event of
  -- the hub that carries what its kind announces: `Update` panics in `highlightMentions`, by a slice
  -- out of range, and nowhere else; or the session is on afterwards; or `Quit` is returned, the
  -- subscription is closed, and the hub is consistent. In the last two cases no other subscription is
  -- opened or closed.
  pub update-Ends :
      (m : Msg) (sub : Subs) (s : Screen)
      → HasContent m
      → IsLive sub s
      → ((c : Cmd) × (t : Screen) × (update lib m s ≡ ran (c, t)) × Ends sub c t)
        ⊎ (update lib m s ≡ crashed bad_slice)
  unfolding Finishes
  update-Ends m sub s h live = update-Finishes m h sub s live
