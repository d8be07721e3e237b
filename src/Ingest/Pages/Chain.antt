-- ===== src/Ingest/Pages/Chain.antt =====
-- A listing of several pages, by their continuation tokens.
use radar_workstation.Common.{
  ℕ, zero, suc, ◌+◌, ◌<◌, ◌≡◌, ap, ap₂, ◌∙◌, Option, none, some, ok, Bytes, List, [], ◌∷◌, ◌++◌,
  true, false, length, arith, append_assoc,
}
use radar_workstation.Ingest.Listing.{XmlReader, ListPage}
use radar_workstation.Ingest.Pages.{Client, list_page, list_keys_from, list_all_keys_after}

module _ {W : Type 0} (client : Client W) (reader : XmlReader) (prefix : Bytes) where
  -- The pages that the servers answer one after the other from the state `w` to `t`: the first to
  -- `start_after` and a token, each further one to the token of the page before it. Each page but
  -- the last is truncated.
  abbrev pub Pages : Option Bytes → Option Bytes → ListPage → List ListPage → W → W → Type 0
  Pages start_after token page [] w t =
      (list_page client reader prefix start_after token none w ≡ some (t, ok page))
      × (page.is_truncated ≡ false)
  Pages start_after token page (next ∷ pages) w t =
      (u : W) × (list_page client reader prefix start_after token none w ≡ some (u, ok page))
      × (page.is_truncated ≡ true)
      × Pages none page.next_token next pages u t

  abbrev pub all_keys : ListPage → List ListPage → List Bytes
  all_keys page [] = page.keys
  all_keys page (next ∷ pages) = page.keys ++ all_keys next pages

  list_keys_from-Pages :
      (fuel : ℕ) (start_after token : Option Bytes) (page : ListPage) (pages : List ListPage)
      (w t : W) (keys : List Bytes) (count : ℕ)
      → Pages start_after token page pages w t
      → length pages < fuel
      → list_keys_from client reader fuel prefix start_after token keys count w
        ≡ some (t, ok (keys ++ all_keys page pages, count + 1 + length pages))
  unfolding list_keys_from
  list_keys_from-Pages zero start_after token page pages w t keys count chain enough =
      absurd (omega arith)
  list_keys_from-Pages (suc fuel) start_after token page [] w t keys count chain enough =
      let (listed, stop) = chain in
      let total : count + 1 ≡ count + 1 + 0 = omega arith in
      let first : list_keys_from client reader (suc fuel) prefix start_after token keys count w
          ≡ some (t, ok (keys ++ page.keys, count + 1)) =
        ground arith in
      first ∙ ap (λ n. some (t, ok (keys ++ page.keys, n))) total
  list_keys_from-Pages (suc fuel) start_after token page (next ∷ pages) w t keys count chain
        enough =
      let (u, listed, more, rest) = chain in
      let ih =
        list_keys_from-Pages fuel none page.next_token next pages u t (keys ++ page.keys)
          (count + 1) rest (omega arith) in
      let total : count + 1 + 1 + length pages ≡ count + 1 + suc (length pages) = omega arith in
      let first : list_keys_from client reader (suc fuel) prefix start_after token keys count w
          ≡ list_keys_from client reader fuel prefix none page.next_token (keys ++ page.keys)
              (count + 1) u =
        ground arith in
      first
      ∙ (ih
          ∙ ap₂ (λ ks n. some (t, ok (ks, n))) (append_assoc keys page.keys (all_keys next pages))
              total)

  -- When the servers answer a chain of pages, `list_all_keys_after` comes to its end, on any fuel
  -- of at least the number of pages, with the keys of all pages in order and the number of pages.
  pub list_all_keys_after-Pages :
      (fuel : ℕ) (start_after : Option Bytes) (page : ListPage) (pages : List ListPage) (w t : W)
      → Pages start_after none page pages w t
      → length pages < fuel
      → list_all_keys_after client reader fuel prefix start_after w
        ≡ some (t, ok (all_keys page pages, 1 + length pages))
  unfolding list_all_keys_after
  list_all_keys_after-Pages fuel start_after page pages w t chain enough =
      list_keys_from-Pages fuel start_after none page pages w t [] 0 chain enough
