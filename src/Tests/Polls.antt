-- ===== src/Tests/Polls.antt =====
-- The poller against scripted servers.
use radar_workstation.Common.{
  ℕ, suc, ◌≡◌, refl, Option, none, some, Result, ok, err, Bytes, List, [], ◌∷◌, Bool, true, false,
  arith, String, ◌==◌, if◌then◌else◌,
}
use radar_workstation.Common.Text.{codes, bytes_eq}
use radar_workstation.Http.{HttpError, closed_by_peer}
use radar_workstation.Ingest.{PollError, http, XmlError, default_status, kind_of_error}
use radar_workstation.Ingest.Listing.{
  XmlEvent, XmlReader, ListPage, parse_list_xml, finish_page, on_events, on_event, on_start_tag,
  on_end_tag, tag_named, take_text, chunk_kind_from_key, last_byte, kind_of_suffix,
  resolve_general_ref, named_entity, encode_utf8, parse_volume_folder, strip_prefix, strip_slash,
  parse_u64, digits_onto, newest_or, cold_start_baseline,
}
use radar_workstation.Ingest.Listing.Items.{
  plain, entity, amp, key_element, folder_element, truncated_element, token_element, unread_element,
  opening, closing, listing_events, Element, keys_in, folders_in, flag_in, token_in,
}
use radar_workstation.Ingest.Listing.Parsed.{parse_list_xml-listing}
use radar_workstation.Ingest.Listing.Folders.{parse_volume_folder-volume_prefix}
use radar_workstation.Ingest.Pages.{
  Client, list_page, list_keys_from, list_all_keys_after, list_folders_from, list_volume_folders,
  volume_folders,
}
use radar_workstation.Ingest.Pages.Chain.{all_keys, list_all_keys_after-Pages}
use radar_workstation.Ingest.Poller.{
  Poller, next_target, anchor_after, digits_before, to_fetch, last_key, count_empty_poll, note_keys,
  finish_batch, move_to, act, note_success, state_after_errors, note_failure, volume_prefix,
  site_prefix,
}
use radar_workstation.Ingest.Poller.Thresholds.{Waiting}
use radar_workstation.Ingest.Rounds.{
  Context, listing_if, apply_recovery, baseline_of, fetch_all, take_keys, poll_from, poll_once,
  publish, poll_round, run_poller,
}
use radar_workstation.Ingest.Rounds.Position.{
  KeepsPosition, CompletedFrom, poll_once-KeepsPosition, poll_once-CompletedFrom,
}
use radar_workstation.Ingest.Rounds.Health.{IsHealthy, run_poller-IsHealthy}
use radar_workstation.Ingest.Rounds.Recovery.{run_poller-re_anchors, run_poller-advances}
use radar_workstation.Pipeline.{ChunkEnvelope}

abbrev site : Bytes
site = codes "KDOX"

abbrev key_of : String → Element
key_of name = key_element (plain (codes name) ∷ [])

-- Two keys, of which one is split by a reference.
abbrev two_keys : List Element
two_keys =
    opening (codes "ListBucketResult")
    ∷ unread_element (codes "Prefix") (plain (codes "KDOX/79/") ∷ [])
    ∷ truncated_element false
    ∷ key_of "KDOX/79/001-S"
    ∷ key_element (plain (codes "a") ∷ entity amp ∷ plain (codes "b-E") ∷ [])
    ∷ closing (codes "ListBucketResult")
    ∷ []

abbrev no_key : List Element
no_key = truncated_element false ∷ []

abbrev some_folders : List Element
some_folders =
    truncated_element false
    ∷ folder_element (plain (codes "KDOX/78/") ∷ [])
    ∷ folder_element (plain (codes "KDOX/166/") ∷ [])
    ∷ []

abbrev first_of_two : List Element
first_of_two =
    truncated_element true ∷ key_of "KDOX/79/001-S" ∷ token_element (plain (codes "next") ∷ []) ∷ []

-- The bodies are numbered.
abbrev body : ℕ → List Element
body n =
    if n == 1
    then two_keys
    else if n == 2
    then no_key
    else if n == 3
    then some_folders
    else first_of_two

abbrev script : Bytes → List XmlEvent × Option XmlError
script [] = ([], none)
script (n ∷ rest) = (listing_events (body n), none)

abbrev reader : XmlReader
reader = record { read_events = script }

-- The answer to a listing of keys, by whether there is a token, and to one of folders.
abbrev answer : ℕ → Option Bytes → Option Bytes → Result HttpError Bytes
answer keys token (some delimiter) = ok (3 ∷ [])
answer keys none none = if keys == 0 then err closed_by_peer else ok (keys ∷ [])
answer keys (some token) none = ok (1 ∷ [])

-- The servers count the requests.
abbrev client : ℕ → Client ℕ
client keys = record {
  list_prefix = λ prefix start_after token delimiter w. (suc w, answer keys token delimiter);
  get_object = λ key w. (suc w, ok key);
}

-- A poller that waits for the volume after 78.
abbrev waiting : Bool → ℕ → Poller
waiting seen n = record {
  last_completed_volume = some 78;
  last_seen_key = none;
  consecutive_empty_polls = n;
  seen_any_key_in_current_volume = seen;
  consecutive_errors = 0;
  status = default_status;
}

abbrev context : Poller → Context ℕ
context p = record { server = 0; poller = p; reports = [] }

parse_list_xml-listing_example :
    parse_list_xml reader (1 ∷ [])
    ≡ ok (record {
      keys = codes "KDOX/79/001-S" ∷ codes "a&b-E" ∷ [];
      common_prefixes = [];
      is_truncated = false;
      next_token = none;
    })
unfolding bytes_eq
parse_list_xml-listing_example =
    parse_list_xml-listing reader (1 ∷ []) two_keys
      (
        (refl, refl, refl, refl),
        ((refl, refl, refl, refl), (tt, (tt, (tt, ((refl, refl, refl, refl), tt))))),
      )
      refl

parse_volume_folder-volume_prefix_example :
    parse_volume_folder (site_prefix site) (volume_prefix site 268) ≡ some 268
parse_volume_folder-volume_prefix_example = parse_volume_folder-volume_prefix site 268 (omega arith)

abbrev page_of : List Element → ListPage
page_of es = record {
  keys = keys_in es;
  common_prefixes = folders_in es;
  is_truncated = flag_in false es;
  next_token = token_in none es;
}

list_all_keys_after-Pages_example :
    list_all_keys_after (client 4) reader 2 (volume_prefix site 79) none 0
    ≡ some (
      2,
      ok (
        all_keys
            (client 4)
            reader
            (volume_prefix site 79)
            (page_of first_of_two)
            (page_of two_keys ∷ []),
        2,
      ),
    )
unfolding listing_if apply_recovery baseline_of fetch_all take_keys poll_from poll_once publish
    poll_round run_poller list_page list_keys_from list_all_keys_after list_folders_from
    list_volume_folders volume_folders next_target anchor_after digits_before to_fetch last_key
    count_empty_poll note_keys finish_batch move_to act note_success state_after_errors note_failure
    parse_list_xml finish_page on_events on_event on_start_tag on_end_tag tag_named take_text
    chunk_kind_from_key last_byte kind_of_suffix resolve_general_ref named_entity encode_utf8
    parse_volume_folder strip_prefix strip_slash parse_u64 digits_onto newest_or cold_start_baseline
    bytes_eq kind_of_error
list_all_keys_after-Pages_example =
    list_all_keys_after-Pages (client 4) reader (volume_prefix site 79) 2 none
      (page_of first_of_two) (page_of two_keys ∷ []) 0 2 (1, refl, refl, (refl, refl)) (omega arith)

-- What a poll of the volume after 78 comes to, by the body that lists its keys.
abbrev polled : ℕ → Option (Context ℕ × Result PollError (List ChunkEnvelope))
polled keys = poll_once (client keys) reader site 1 (context (waiting false 3))

abbrev context_of : {A : Type 0} → Option (Context ℕ × A) → Context ℕ
context_of none = context (waiting false 0)
context_of (some r) = r.0

poll_once-KeepsPosition_example : KeepsPosition (waiting false 3) (context_of (polled 0)).poller
unfolding listing_if apply_recovery baseline_of fetch_all take_keys poll_from poll_once publish
    poll_round run_poller list_page list_keys_from list_all_keys_after list_folders_from
    list_volume_folders volume_folders next_target anchor_after digits_before to_fetch last_key
    count_empty_poll note_keys finish_batch move_to act note_success state_after_errors note_failure
    parse_list_xml finish_page on_events on_event on_start_tag on_end_tag tag_named take_text
    chunk_kind_from_key last_byte kind_of_suffix resolve_general_ref named_entity encode_utf8
    parse_volume_folder strip_prefix strip_slash parse_u64 digits_onto newest_or cold_start_baseline
    bytes_eq kind_of_error
poll_once-KeepsPosition_example =
    poll_once-KeepsPosition (client 0) reader site 1 (context (waiting false 3))
      (context_of (polled 0)) (http closed_by_peer) refl

poll_once-CompletedFrom_example : CompletedFrom 78 (context_of (polled 1)).poller
unfolding listing_if apply_recovery baseline_of fetch_all take_keys poll_from poll_once publish
    poll_round run_poller list_page list_keys_from list_all_keys_after list_folders_from
    list_volume_folders volume_folders next_target anchor_after digits_before to_fetch last_key
    count_empty_poll note_keys finish_batch move_to act note_success state_after_errors note_failure
    parse_list_xml finish_page on_events on_event on_start_tag on_end_tag tag_named take_text
    chunk_kind_from_key last_byte kind_of_suffix resolve_general_ref named_entity encode_utf8
    parse_volume_folder strip_prefix strip_slash parse_u64 digits_onto newest_or cold_start_baseline
    bytes_eq kind_of_error
poll_once-CompletedFrom_example =
    poll_once-CompletedFrom (client 1) reader site 1 78 (context (waiting false 3))
      (context_of (polled 1)) _ refl (omega arith) refl

abbrev failing : Option (Context ℕ × List ChunkEnvelope)
failing =
    run_poller (client 0) reader site 1 none (5 ∷ 10 ∷ 15 ∷ 20 ∷ 25 ∷ [])
      (context (waiting false 3))

run_poller-IsHealthy_example : IsHealthy (context_of failing).poller
unfolding listing_if apply_recovery baseline_of fetch_all take_keys poll_from poll_once publish
    poll_round run_poller list_page list_keys_from list_all_keys_after list_folders_from
    list_volume_folders volume_folders next_target anchor_after digits_before to_fetch last_key
    count_empty_poll note_keys finish_batch move_to act note_success state_after_errors note_failure
    parse_list_xml finish_page on_events on_event on_start_tag on_end_tag tag_named take_text
    chunk_kind_from_key last_byte kind_of_suffix resolve_general_ref named_entity encode_utf8
    parse_volume_folder strip_prefix strip_slash parse_u64 digits_onto newest_or cold_start_baseline
    bytes_eq kind_of_error
run_poller-IsHealthy_example =
    run_poller-IsHealthy (client 0) reader site 1 none (5 ∷ 10 ∷ 15 ∷ 20 ∷ 25 ∷ [])
      (context (waiting false 3)) (context_of failing) [] (omega arith) refl refl

run_poller-re_anchors_example :
    (t : Context ℕ) × ((room : Option ℕ)
      → run_poller (client 2) reader site 1 room (5 ∷ 10 ∷ []) (context (waiting false 10))
        ≡ some (t, []))
    × Waiting 164 false 0 t.poller
unfolding listing_if apply_recovery baseline_of fetch_all take_keys poll_from poll_once publish
    poll_round run_poller list_page list_keys_from list_all_keys_after list_folders_from
    list_volume_folders volume_folders next_target anchor_after digits_before to_fetch last_key
    count_empty_poll note_keys finish_batch move_to act note_success state_after_errors note_failure
    parse_list_xml finish_page on_events on_event on_start_tag on_end_tag tag_named take_text
    chunk_kind_from_key last_byte kind_of_suffix resolve_general_ref named_entity encode_utf8
    parse_volume_folder strip_prefix strip_slash parse_u64 digits_onto newest_or cold_start_baseline
    bytes_eq kind_of_error
run_poller-re_anchors_example =
    run_poller-re_anchors (client 2) reader site 0 78 (omega arith) (page_of no_key)
      (refl, λ start_after. (refl, λ w. (suc w, 2 ∷ [], refl, refl))) (page_of some_folders)
      (refl, λ w. (suc w, 3 ∷ [], refl, refl)) (omega arith) 10 5 (10 ∷ [])
      (context (waiting false 10)) refl (refl, refl, refl)

run_poller-advances_example :
    (t : Context ℕ) × ((room : Option ℕ)
      → run_poller (client 2) reader site 1 room (5 ∷ 10 ∷ []) (context (waiting true 58))
        ≡ some (t, []))
    × Waiting 79 false 0 t.poller
unfolding listing_if apply_recovery baseline_of fetch_all take_keys poll_from poll_once publish
    poll_round run_poller list_page list_keys_from list_all_keys_after list_folders_from
    list_volume_folders volume_folders next_target anchor_after digits_before to_fetch last_key
    count_empty_poll note_keys finish_batch move_to act note_success state_after_errors note_failure
    parse_list_xml finish_page on_events on_event on_start_tag on_end_tag tag_named take_text
    chunk_kind_from_key last_byte kind_of_suffix resolve_general_ref named_entity encode_utf8
    parse_volume_folder strip_prefix strip_slash parse_u64 digits_onto newest_or cold_start_baseline
    bytes_eq kind_of_error
run_poller-advances_example =
    run_poller-advances (client 2) reader site 0 78 (omega arith) (page_of no_key)
      (refl, λ start_after. (refl, λ w. (suc w, 2 ∷ [], refl, refl))) 58 5 (10 ∷ [])
      (context (waiting true 58)) refl (refl, refl, refl)
