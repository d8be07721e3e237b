-- ===== src/Ingest/Listing.antt =====
-- The XML listing of s3_poll.rs (parse_list_xml, resolve_general_ref), and what the keys and the
-- folders of a listing mean (chunk_kind_from_key, parse_volume_folder, cold_start_baseline).
pub mod Items
pub mod Parsed
pub mod Folders
use radar_workstation.Common.{
  ℕ, zero, suc, ◌+◌, ◌-◌, ◌*◌, ◌/◌, ◌%◌, ◌≤◌, Option, none, some, Result, ok, err, and_then, Bytes,
  List, [], ◌∷◌, ◌++◌, Bool, true, false, ◌&&◌, ltb, leb, ◌==◌, if◌then◌else◌,
}
use radar_workstation.Common.Maybe.{◌>>=◌}
use radar_workstation.Common.Text.{codes, bytes_eq}
use radar_workstation.Chunk.{ChunkKind, start, intermediate, end_chunk}
use radar_workstation.Ingest.{XmlError, unrecognized_entity, PollError, xml}

-- An event of the crate quick-xml with what the parser asks of it: a tag's name, the decoded text,
-- and of a reference `&…;` the character that it gives by number, and its decoded name.
pub data XmlEvent : Type 0 where
  start_tag : Bytes → XmlEvent
  text : Result XmlError Bytes → XmlEvent
  general_ref : Result XmlError (Option ℕ) → Result XmlError Bytes → XmlEvent
  end_tag : Bytes → XmlEvent
  other_event : XmlEvent

-- The crate's reader with `trim_text`: the events of a document up to its end, or up to the error
-- that it stops with.
pub record XmlReader : Type 0 where
  pub read_events : Bytes → List XmlEvent × Option XmlError

pub data ListTag : Type 0 where
  key_tag is_truncated_tag next_continuation_token_tag common_prefix_tag other_tag : ListTag

pub record ListPage : Type 0 where
  pub keys : List Bytes
  pub common_prefixes : List Bytes
  pub is_truncated : Bool
  pub next_token : Option Bytes

-- `String::push`, which appends a character's UTF-8.
unfoldable pub encode_utf8 : ℕ → Bytes
encode_utf8 c =
    if ltb c 128
    then c ∷ []
    else if ltb c 2048
    then (192 + c / 64) ∷ (128 + c % 64) ∷ []
    else if ltb c 65536
    then (224 + c / 4096) ∷ (128 + c / 64 % 64) ∷ (128 + c % 64) ∷ []
    else (240 + c / 262144) ∷ (128 + c / 4096 % 64) ∷ (128 + c / 64 % 64) ∷ (128 + c % 64) ∷ []

-- The match on the five names that XML has built in.
unfoldable pub named_entity : Bytes → Result XmlError ℕ
named_entity name =
    if bytes_eq name (codes "amp")
    then ok 38
    else if bytes_eq name (codes "lt")
    then ok 60
    else if bytes_eq name (codes "gt")
    then ok 62
    else if bytes_eq name (codes "apos")
    then ok 39
    else if bytes_eq name (codes "quot")
    then ok 34
    else err (unrecognized_entity name)

unfoldable pub resolve_general_ref :
    Result XmlError (Option ℕ) → Result XmlError Bytes → Result XmlError ℕ
resolve_general_ref char_ref decoded =
    and_then char_ref λ c. elim c [ some ch ↦ ok ch | none ↦ and_then decoded named_entity ]

-- The local variables of `parse_list_xml`.
pub record ListState : Type 0 where
  pub page : ListPage
  pub in_tag : ListTag
  pub in_common_prefixes : Bool
  pub current_text : Bytes

abbrev pub empty_page : ListPage
empty_page = record { keys = []; common_prefixes = []; is_truncated = false; next_token = none }

abbrev pub initial_list_state : ListState
initial_list_state = record {
  page = empty_page;
  in_tag = other_tag;
  in_common_prefixes = false;
  current_text = [];
}

abbrev pub tag_is_other : ListTag → Bool
tag_is_other other_tag = true
tag_is_other _ = false

-- The match on a start tag's name.
unfoldable pub tag_named : Bytes → Bool → ListTag
tag_named name in_common_prefixes =
    if bytes_eq name (codes "CommonPrefixes")
    then other_tag
    else if bytes_eq name (codes "Key")
    then key_tag
    else if bytes_eq name (codes "IsTruncated")
    then is_truncated_tag
    else if bytes_eq name (codes "NextContinuationToken")
    then next_continuation_token_tag
    else if bytes_eq name (codes "Prefix") && in_common_prefixes
    then common_prefix_tag
    else other_tag

unfoldable pub on_start_tag : Bytes → ListState → ListState
on_start_tag name s = record s {
  in_tag = tag_named name s.in_common_prefixes;
  in_common_prefixes =
      if bytes_eq name (codes "CommonPrefixes") then true else s.in_common_prefixes;
  current_text = [];
}

-- The match on the tag that ends: the page, and the text, which `mem::take` may have emptied.
unfoldable pub take_text : ListTag → Bytes → ListPage → ListPage × Bytes
take_text key_tag t p = (record p { keys = p.keys ++ t ∷ [] }, [])
take_text common_prefix_tag t p = (record p { common_prefixes = p.common_prefixes ++ t ∷ [] }, [])
take_text is_truncated_tag t p = (record p { is_truncated = bytes_eq t (codes "true") }, t)
take_text next_continuation_token_tag t p = (record p { next_token = some t }, [])
take_text other_tag t p = (p, t)

unfoldable pub on_end_tag : Bytes → ListState → ListState
on_end_tag name s =
    let taken = take_text s.in_tag s.current_text s.page in
    record {
      page = taken.0;
      in_tag = other_tag;
      in_common_prefixes =
          if bytes_eq name (codes "CommonPrefixes") then false else s.in_common_prefixes;
      current_text = taken.1;
    }

abbrev pub append_text : ListState → Bytes → ListState
append_text s t = record s { current_text = s.current_text ++ t }

-- The match on an event.
unfoldable pub on_event : XmlEvent → ListState → Result XmlError ListState
on_event (start_tag name) s = ok (on_start_tag name s)
on_event (text decoded) s =
    if tag_is_other s.in_tag then ok s else and_then decoded (λ t. ok (append_text s t))
on_event (general_ref char_ref decoded) s =
    if tag_is_other s.in_tag
    then ok s
    else and_then (resolve_general_ref char_ref decoded) (λ ch. ok (append_text s (encode_utf8 ch)))
on_event (end_tag name) s = ok (on_end_tag name s)
on_event other_event s = ok s

-- The loop over the events, up to an error of the parser's own.
unfoldable pub on_events : List XmlEvent → ListState → Result XmlError ListState
on_events [] s = ok s
on_events (e ∷ es) s = and_then (on_event e s) (on_events es)

-- What the reader stops with comes after the events before it.
abbrev pub stop_with : Option XmlError → ListState → Result PollError ListPage
stop_with none s = ok s.page
stop_with (some e) s = err (xml e)

unfoldable pub finish_page : Option XmlError → Result XmlError ListState → Result PollError ListPage
finish_page stop (ok s) = stop_with stop s
finish_page stop (err e) = err (xml e)

unfoldable pub parse_list_xml : XmlReader → Bytes → Result PollError ListPage
parse_list_xml reader body =
    let read = reader.read_events body in finish_page read.1 (on_events read.0 initial_list_state)

-- `as_bytes().last()`
unfoldable pub last_byte : Bytes → Option ℕ
last_byte [] = none
last_byte (b ∷ []) = some b
last_byte (b ∷ c ∷ cs) = last_byte (c ∷ cs)

unfoldable pub kind_of_suffix : ℕ → Option ChunkKind
kind_of_suffix b =
    if b == 83
    then some start
    else if b == 73
    then some intermediate
    else if b == 69
    then some end_chunk
    else none

unfoldable pub chunk_kind_from_key : Bytes → Option ChunkKind
chunk_kind_from_key key = last_byte key >>= kind_of_suffix

-- `str::strip_prefix`
unfoldable pub strip_prefix : Bytes → Bytes → Option Bytes
strip_prefix [] s = some s
strip_prefix (p ∷ ps) [] = none
strip_prefix (p ∷ ps) (b ∷ bs) = if p == b then strip_prefix ps bs else none

-- `str::strip_suffix('/')`
unfoldable pub strip_slash : Bytes → Option Bytes
strip_slash [] = none
strip_slash (b ∷ []) = if b == 47 then some [] else none
strip_slash (b ∷ c ∷ cs) = do rest ← strip_slash (c ∷ cs); some (b ∷ rest)

-- The digits of a `u64`, after the number `n` that they follow; a number of 2 ^ 64 or more is an
-- error.
unfoldable pub digits_onto : ℕ → Bytes → Option ℕ
digits_onto n [] = some n
digits_onto n (b ∷ bs) =
    if leb 48 b && leb b 57 && ltb (n * 10 + (b - 48)) 18446744073709551616
    then digits_onto (n * 10 + (b - 48)) bs
    else none

abbrev pub some_digits : Bytes → Option ℕ
some_digits [] = none
some_digits (b ∷ bs) = digits_onto 0 (b ∷ bs)

-- `str::parse::<u64>().ok()`, which takes a leading `+`.
unfoldable pub parse_u64 : Bytes → Option ℕ
parse_u64 [] = none
parse_u64 (b ∷ bs) = if b == 43 then some_digits bs else some_digits (b ∷ bs)

unfoldable pub parse_volume_folder : Bytes → Bytes → Option ℕ
parse_volume_folder prefix common_prefix = do
  rest ← strip_prefix prefix common_prefix
  name ← strip_slash rest
  parse_u64 name

abbrev pub max : ℕ → ℕ → ℕ
max a b = if leb a b then b else a

-- `iter().copied().max().unwrap_or(d)`
unfoldable pub newest_or : ℕ → List ℕ → ℕ
newest_or d [] = d
newest_or d (v ∷ []) = v
newest_or d (v ∷ w ∷ vs) = max v (newest_or d (w ∷ vs))

unfoldable pub cold_start_baseline : List ℕ → ℕ
cold_start_baseline folders = newest_or 0 folders - 1
