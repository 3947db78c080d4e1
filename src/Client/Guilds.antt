-- ===== src/Client/Guilds.antt =====
-- internal/fluxer/client.go, Guilds: the pages of 200 communities.
pub mod Complete
use flx.Prelude.{
  ℕ, zero, suc, List, [], ◌∷◌, ◌++◌, Option, none, some, Bytes, codes, ◌==◌, bytes_eq, ltb, length,
  Result, ok, err, panic, if◌then◌else◌,
}
use flx.Types.{Guild}
use flx.Client.{ClientError, exhausted}

abbrev pub page_size : ℕ
page_size = 200

-- The path of a page; `query_escape` is url.QueryEscape.
unfoldable pub guilds_path : (Bytes → Bytes) → Bytes → Bytes
guilds_path query_escape before =
    if before == []
    then codes "/users/@me/guilds?limit=200"
    else codes "/users/@me/guilds?limit=200" ++ (codes "&before=" ++ query_escape before)

-- page[len(page)-1].ID
unfoldable pub last_id : List Guild → Bytes
last_id [] = []
last_id (g ∷ []) = g.id
last_id (g ∷ h ∷ page) = last_id (h ∷ page)

module _ {W : Type 0} (fetch : Bytes → W → Result ClientError (List Guild) × W) where
  unfoldable pub next_page :
      List Guild
      → Result ClientError (List Guild) × W
      → (Bytes → List Guild → W → Result ClientError (List Guild) × W)
      → Result ClientError (List Guild) × W
  next_page collected (ok page, w) next =
      if ltb (length page) page_size
      then (ok (collected ++ page), w)
      else next (last_id page) (collected ++ page) w
  next_page collected (err e, w) next = (err e, w)
  next_page collected (panic, w) next = (panic, w)

  -- The loop, on a bound of its rounds.
  unfoldable pub guilds_loop : ℕ → Bytes → List Guild → W → Result ClientError (List Guild) × W
  unfolding next_page
  guilds_loop zero before collected w = (err exhausted, w)
  guilds_loop (suc rounds) before collected w =
      next_page collected (fetch before w)
        (λ before' collected' w'. guilds_loop rounds before' collected' w')

  unfoldable pub guilds : ℕ → W → Result ClientError (List Guild) × W
  guilds rounds w = guilds_loop rounds [] [] w
