-- ===== src/Tests/Registration.antt =====
-- A registration, and a text with mentions.
use terminal_social.Common.{zero, ◌≡◌, refl, [], ◌∷◌, true}
use terminal_social.Common.Records.Order.{All}
use terminal_social.Text.{Bytes, codes, nocase_eq}
use terminal_social.Domain.Names.{valid_handle}
use terminal_social.Store.Schema.{next_id}
use terminal_social.Store.Exec.{ok, quiet}
use terminal_social.Store.Users.{
  new_user, create_user, user_by_id, user_by_handle, user_by_fingerprint,
}
use terminal_social.Store.Users.Lookup.{registered, create_user_lem}
use terminal_social.Store.Mentions.{find_handles, has_handle, parse_mentions}
use terminal_social.Store.Mentions.Handles.{IsHandle, all_new, parse_mentions-valid}
use terminal_social.Store.Mentions.Found.{parse_mentions-found}
use terminal_social.Tests.World.{world}

create_user_lem_example :
    let u = new_user 5 (codes "dave") 200 in
    let after = registered 200 (codes "dave") (codes "fp") (codes "key") world in
    (create_user 200 (codes "dave") (codes "fp") (codes "key") (quiet world) ≡ (ok u, quiet after))
    × (user_by_id 5 (quiet after) ≡ (ok u, quiet after))
    × (user_by_handle (codes "dave") (quiet after) ≡ (ok u, quiet after))
    × (user_by_fingerprint (codes "fp") (quiet after) ≡ (ok u, quiet after))
unfolding nocase_eq next_id
create_user_lem_example =
    create_user_lem 200 (codes "dave") (codes "fp") (codes "key") world refl refl

-- A text of small letters is its own `strings.ToLower`.
abbrev same_text : Bytes → Bytes
same_text b = b

abbrev greeting : Bytes
greeting = codes "hi @bob! @bob, @al"

parsed : parse_mentions same_text greeting ≡ codes "bob" ∷ []
unfolding parse_mentions find_handles
parsed = refl

parse_mentions-valid_example :
    All IsHandle (parse_mentions same_text greeting)
    × (all_new (parse_mentions same_text greeting) ≡ true)
    × ((h : Bytes)
        → has_handle h (parse_mentions same_text greeting)
          ≡ has_handle h (find_handles zero greeting))
parse_mentions-valid_example = parse_mentions-valid same_text greeting

parse_mentions-found_example : has_handle (codes "bob") (parse_mentions same_text greeting) ≡ true
unfolding valid_handle
parse_mentions-found_example =
    parse_mentions-found same_text greeting (codes "hi ") (codes "bob") (codes "! @bob, @al") refl
      refl refl
