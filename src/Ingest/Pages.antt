-- ===== src/Ingest/Pages.antt =====
-- The loops over the pages of a listing in s3_poll.rs: list_volume_folders, list_all_keys_after.
pub mod Chain
use radar_workstation.Common.{
  ℕ, zero, suc, ◌+◌, Option, none, some, Result, ok, Bytes, List, [], ◌∷◌, ◌++◌, true, false,
}
use radar_workstation.Common.Text.{codes}
use radar_workstation.Http.{HttpError}
use radar_workstation.Ingest.Action.{Action, pure, of_result, request, out_of_fuel, ◌>>=◌, ◌>>◌}
use radar_workstation.Ingest.Listing.{XmlReader, ListPage, parse_list_xml, parse_volume_folder}
use radar_workstation.Event.{Event, unrecognized_volume_folder}

-- What the poller calls of `S3Client`, on a state `W` of the connection and the servers:
-- `list_prefix` with a prefix, start-after, a continuation token and a delimiter, and `get_object`.
pub record Client (W : Type 0) : Type 0 where
  pub list_prefix :
      Bytes → Option Bytes → Option Bytes → Option Bytes → W → W × Result HttpError Bytes
  pub get_object : Bytes → W → W × Result HttpError Bytes

-- The numbers of the folders, and a report of each entry that is none.
unfoldable pub volume_folders : Bytes → List Bytes → List ℕ × List Event
volume_folders prefix [] = ([], [])
volume_folders prefix (entry ∷ entries) =
    let rest = volume_folders prefix entries in
    elim (parse_volume_folder prefix entry) [
      | some volume ↦ (volume ∷ rest.0, rest.1)
      | none ↦ (rest.0, unrecognized_volume_folder entry ∷ rest.1)
    ]

module _ {W : Type 0} (client : Client W) (reader : XmlReader) where
  -- A request and the parse of its body.
  unfoldable pub list_page : Bytes → Option Bytes → Option Bytes → Option Bytes → Action W ListPage
  list_page prefix start_after token delimiter = do
    body ← request (client.list_prefix prefix start_after token delimiter)
    of_result (parse_list_xml reader body)

  -- The loop on fuel, from a page on: the keys of the pages before, and their number.
  unfoldable pub list_keys_from :
      ℕ → Bytes → Option Bytes → Option Bytes → List Bytes → ℕ → Action W (List Bytes × ℕ)
  list_keys_from zero prefix start_after token keys pages = out_of_fuel
  list_keys_from (suc fuel) prefix start_after token keys pages = do
    page ← list_page prefix start_after token none
    elim page.is_truncated [
      | true ↦ list_keys_from fuel prefix none page.next_token (keys ++ page.keys) (pages + 1)
      | false ↦ pure (keys ++ page.keys, pages + 1)
    ]

  unfoldable pub list_all_keys_after : ℕ → Bytes → Option Bytes → Action W (List Bytes × ℕ)
  list_all_keys_after fuel prefix start_after = list_keys_from fuel prefix start_after none [] 0

  -- With the events reported so far. The loop of `list_volume_folders`, on fuel.
  abbrev pub on_server : {A : Type 0} → Action W A → Action (W × List Event) A
  on_server m (w, events) = elim (m w) [ none ↦ none | some r ↦ some ((r.0, events), r.1) ]

  abbrev pub report_all : List Event → Action (W × List Event) (Unit {0})
  report_all new (w, events) = some ((w, events ++ new), ok tt)

  unfoldable pub list_folders_from :
      ℕ → Bytes → Option Bytes → List ℕ → Action (W × List Event) (List ℕ)
  list_folders_from zero prefix token folders = out_of_fuel
  list_folders_from (suc fuel) prefix token folders = do
    page ← on_server (list_page prefix none token (some (codes "/")))
    let found = volume_folders prefix page.common_prefixes
    report_all found.1
    elim page.is_truncated [
      | true ↦ list_folders_from fuel prefix page.next_token (folders ++ found.0)
      | false ↦ pure (folders ++ found.0)
    ]

  unfoldable pub list_volume_folders : ℕ → Bytes → Action (W × List Event) (List ℕ)
  list_volume_folders fuel prefix = list_folders_from fuel prefix none []
