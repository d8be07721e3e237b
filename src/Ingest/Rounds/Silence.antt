-- ===== src/Ingest/Rounds/Silence.antt =====
-- A poll, and a round, in which the server lists no key.
use radar_workstation.Common.{
  ℕ, suc, ◌-◌, ◌≡◌, Option, none, some, ok, List, [], ◌∷◌, ◌++◌, true, false, Bytes, arith, ltb,
}
use radar_workstation.Common.Text.{codes}
use radar_workstation.Event.{Event}
use radar_workstation.Ingest.Listing.{XmlReader, ListPage, parse_list_xml}
use radar_workstation.Ingest.Pages.{
  Client, list_page, list_keys_from, list_all_keys_after, list_folders_from, list_volume_folders,
  volume_folders,
}
use radar_workstation.Ingest.Poller.{
  next_target, inc_u64, count_empty_poll, act, poll_state, should_relist, note_success, site_prefix,
  volume_prefix,
}
use radar_workstation.Ingest.Rounds.{
  Context, baseline_fits, empty_polls_fit, action_fits, poll_once, poll_from, take_keys,
  apply_recovery, listing_if, baseline_of, publish, poll_round, run_poller,
}
use radar_workstation.Pipeline.{ChunkEnvelope}

module _ {W : Type 0} (client : Client W) (reader : XmlReader) where
  -- Whatever came before, a listing of one page is answered with this page.
  abbrev pub Answers : Bytes → Option Bytes → Option Bytes → ListPage → Type 0
  Answers prefix start_after delimiter page =
      (page.is_truncated ≡ false)
      × ((w : W)
          → (t : W) × (body : Bytes) × (client.list_prefix prefix start_after none delimiter w
              ≡ (t, ok body))
            × (parse_list_xml reader body ≡ ok page))

  list_page-Answers :
      (prefix : Bytes) (start_after delimiter : Option Bytes) (page : ListPage)
      → Answers prefix start_after delimiter page
      → (w : W)
      → (t : W) × (list_page client reader prefix start_after none delimiter w ≡ some (t, ok page))
  unfolding list_page
  list_page-Answers prefix start_after delimiter page answers w =
      let (t, body, sent, parsed) = answers.1 w in (t, ground arith)

  pub keys-Answers :
      (fuel : ℕ) (prefix : Bytes) (start_after : Option Bytes) (page : ListPage)
      → Answers prefix start_after none page
      → (w : W)
      → (t : W) × (list_all_keys_after client reader (suc fuel) prefix start_after w
          ≡ some (t, ok (page.keys, 1)))
  unfolding list_all_keys_after list_keys_from
  keys-Answers fuel prefix start_after page answers w =
      let (t, listed) = list_page-Answers prefix start_after none page answers w in
      (t, ground arith)

  pub folders-Answers :
      (fuel : ℕ) (prefix : Bytes) (page : ListPage)
      → Answers prefix none (some (codes "/")) page
      → (w : W) (events : List Event)
      → (t : W) × (list_volume_folders client reader (suc fuel) prefix (w, events)
          ≡ some (
            (t, events ++ (volume_folders prefix page.common_prefixes).1),
            ok (volume_folders prefix page.common_prefixes).0,
          ))
  unfolding list_volume_folders list_folders_from
  folders-Answers fuel prefix page answers w events =
      let (t, listed) = list_page-Answers prefix none (some (codes "/")) page answers w in
      (t, ground arith)

module _ {W : Type 0} (client : Client W) (reader : XmlReader) (site : Bytes) (fuel : ℕ) where
  pub poll_once-empty :
      (v pages : ℕ) (c : Context W) (t : W)
      → c.poller.last_completed_volume ≡ some v
      → baseline_fits v ≡ true
      → list_all_keys_after client reader fuel
          (volume_prefix site (inc_u64 v))
          c.poller.last_seen_key
          c.server
        ≡ some (t, ok ([], pages))
      → poll_once client reader site fuel c
        ≡ take_keys client reader site fuel v (inc_u64 v) [] (record c { server = t })
  unfolding poll_once poll_from baseline_of
  poll_once-empty v pages c t known fits listed = ground arith

  -- The recovery without a listing, and with one.
  pub take_keys-waiting :
      (v target : ℕ) (c : Context W)
      → empty_polls_fit c.poller ≡ true
      → should_relist (count_empty_poll v c.poller) ≡ false
      → action_fits (next_target (poll_state target (count_empty_poll v c.poller)) none) ≡ true
      → let p = count_empty_poll v c.poller in
        let acted = act (next_target (poll_state target p) none) false target p in
        take_keys client reader site fuel v target [] c
        ≡ some (record c { poller = acted.0; reports = (c.reports ++ []) ++ acted.1 }, ok [])
  unfolding take_keys apply_recovery listing_if
  take_keys-waiting v target c room due fits = ground arith

  pub take_keys-relisting :
      (v target : ℕ) (c : Context W) (t : W) (events : List Event) (folders : List ℕ)
      → empty_polls_fit c.poller ≡ true
      → should_relist (count_empty_poll v c.poller) ≡ true
      → action_fits (next_target (poll_state target (count_empty_poll v c.poller)) (some folders))
        ≡ true
      → list_volume_folders client reader fuel (site_prefix site) (c.server, c.reports ++ [])
        ≡ some ((t, events), ok folders)
      → let p = count_empty_poll v c.poller in
        let acted = act (next_target (poll_state target p) (some folders)) true target p in
        take_keys client reader site fuel v target [] c
        ≡ some (record { server = t; poller = acted.0; reports = events ++ acted.1 }, ok [])
  unfolding take_keys apply_recovery listing_if
  take_keys-relisting v target c t events folders room due fits listed = ground arith

  pub poll_round-ok :
      (now : ℕ) (c t : Context W) (envelopes : List ChunkEnvelope)
      → poll_once client reader site fuel c ≡ some (t, ok envelopes)
      → poll_round client reader site fuel now c
        ≡ some (record t { poller = note_success now t.poller }, envelopes)
  unfolding poll_round publish
  poll_round-ok now c t envelopes h = ground arith

  pub run_poller-silent :
      (room : Option ℕ) (now : ℕ) (ticks : List ℕ) (c t u : Context W)
      → poll_round client reader site fuel now c ≡ some (t, [])
      → ((r : Option ℕ) → run_poller client reader site fuel r ticks t ≡ some (u, []))
      → run_poller client reader site fuel room (now ∷ ticks) c ≡ some (u, [])
  unfolding run_poller
  run_poller-silent none now ticks c t u first rest = let more = rest none in ground arith
  run_poller-silent (some n) now ticks c t u first rest =
      let more = rest (some (n - 0)) in
      let open_room : ltb n 0 ≡ false = ground arith in ground arith
