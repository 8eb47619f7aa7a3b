-- ===== src/Presentation/Router/Tests.antt =====
-- Runs of the dispatch, and its theorem at a concrete request.
use onlyapi.Base.{List, [], codes, none, refl, some, text_eq, ℕ, ◌≡◌, ◌↔◌, arith}
use onlyapi.Base.{starts_with, substring}
use onlyapi.Presentation.Router.{Route, handle}
use onlyapi.Presentation.Router.Dispatch.{handle_iff}
use onlyapi.Presentation.Router.Routes.{IsValid, method_of, path_of}

abbrev ban_seven : List ℕ
ban_seven = codes "/api/v1/admin/users/7/ban"

handle_iff_example : (handle (codes "POST") ban_seven ≡ some (Route.ban_user (codes "7"))) ↔ (
    IsValid (Route.ban_user (codes "7"))
    × (codes "POST" ≡ method_of (Route.ban_user (codes "7")))
    × (ban_seven ≡ path_of (Route.ban_user (codes "7"))))
handle_iff_example = handle_iff (codes "POST") ban_seven (Route.ban_user (codes "7")) (omega arith)

bans_seven : handle (codes "POST") ban_seven ≡ some (Route.ban_user (codes "7"))
unfolding handle starts_with substring text_eq
bans_seven = refl

-- A key needs an id, a user does not.
no_key : handle (codes "DELETE") (codes "/api/v1/api-keys/") ≡ none
unfolding handle starts_with substring text_eq
no_key = refl

empty_user : handle (codes "GET") (codes "/api/v1/admin/users/") ≡ some (Route.get_user [])
unfolding handle starts_with substring text_eq
empty_user = refl
