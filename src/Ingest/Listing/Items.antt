-- ===== src/Ingest/Listing/Items.antt =====
-- The grammar of a well-formed listing: its events, element by element, and what it says.
use radar_workstation.Common.{
  ℕ, ◌≡◌, Option, none, some, ok, Bytes, List, [], ◌∷◌, ◌++◌, Bool, true, false,
}
use radar_workstation.Common.Text.{codes, bytes_eq}
use radar_workstation.Ingest.Listing.{
  XmlEvent, start_tag, text, general_ref, end_tag, ListPage, encode_utf8,
}

pub data Entity : Type 0 where
  amp lt gt apos quot : Entity

abbrev pub entity_name : Entity → Bytes
entity_name amp = codes "amp"
entity_name lt = codes "lt"
entity_name gt = codes "gt"
entity_name apos = codes "apos"
entity_name quot = codes "quot"

-- The ASCII character that an entity stands for.
abbrev pub entity_char : Entity → ℕ
entity_char amp = 38
entity_char lt = 60
entity_char gt = 62
entity_char apos = 39
entity_char quot = 34

-- A part of an element's text: plain, `&name;`, or `&#number;`.
pub data Piece : Type 0 where
  plain : Bytes → Piece
  entity : Entity → Piece
  numbered : ℕ → Bytes → Piece

abbrev pub piece_event : Piece → XmlEvent
piece_event (plain t) = text (ok t)
piece_event (entity e) = general_ref (ok none) (ok (entity_name e))
piece_event (numbered c name) = general_ref (ok (some c)) (ok name)

abbrev pub piece_text : Piece → Bytes
piece_text (plain t) = t
piece_text (entity e) = entity_char e ∷ []
piece_text (numbered c name) = encode_utf8 c

abbrev pub piece_events : List Piece → List XmlEvent
piece_events [] = []
piece_events (p ∷ ps) = piece_event p ∷ piece_events ps

abbrev pub text_of : List Piece → Bytes
text_of [] = []
text_of (p ∷ ps) = piece_text p ++ text_of ps

-- An element of a listing: the four that are read, with a folder's `Prefix` in its
-- `CommonPrefixes`; an element with text that is not read, `<Name>` or `<Prefix>` for example; and
-- the tags around others, `<Contents>` for example.
pub data Element : Type 0 where
  key_element : List Piece → Element
  folder_element : List Piece → Element
  truncated_element : Bool → Element
  token_element : List Piece → Element
  unread_element : Bytes → List Piece → Element
  opening : Bytes → Element
  closing : Bytes → Element

abbrev pub flag_text : Bool → Bytes
flag_text true = codes "true"
flag_text false = codes "false"

abbrev pub element_events : Element → List XmlEvent → List XmlEvent
element_events (key_element ps) rest =
    start_tag (codes "Key") ∷ (piece_events ps ++ (end_tag (codes "Key") ∷ rest))
element_events (folder_element ps) rest =
    start_tag (codes "CommonPrefixes")
    ∷ start_tag (codes "Prefix")
    ∷ (piece_events ps ++ (end_tag (codes "Prefix") ∷ end_tag (codes "CommonPrefixes") ∷ rest))
element_events (truncated_element b) rest =
    start_tag (codes "IsTruncated") ∷ text (ok (flag_text b)) ∷ end_tag (codes "IsTruncated") ∷ rest
element_events (token_element ps) rest =
    start_tag (codes "NextContinuationToken")
    ∷ (piece_events ps ++ (end_tag (codes "NextContinuationToken") ∷ rest))
element_events (unread_element name ps) rest =
    start_tag name ∷ (piece_events ps ++ (end_tag name ∷ rest))
element_events (opening name) rest = start_tag name ∷ rest
element_events (closing name) rest = end_tag name ∷ rest

abbrev pub listing_events : List Element → List XmlEvent
listing_events [] = []
listing_events (e ∷ es) = element_events e (listing_events es)

-- A tag that opens no element that is read.
abbrev pub IsUnread : Bytes → Type 0
IsUnread name =
    (bytes_eq name (codes "CommonPrefixes") ≡ false)
    × (bytes_eq name (codes "Key") ≡ false)
    × (bytes_eq name (codes "IsTruncated") ≡ false)
    × (bytes_eq name (codes "NextContinuationToken") ≡ false)

abbrev pub IsElement : Element → Type 0
IsElement (unread_element name ps) = IsUnread name
IsElement (opening name) = IsUnread name
IsElement (closing name) = IsUnread name
IsElement _ = Unit {0}

abbrev pub AllElements : List Element → Type 0
AllElements [] = Unit {0}
AllElements (e ∷ es) = IsElement e × AllElements es

-- What a listing says: its keys and its folders in order, the last flag and the last token.
abbrev pub keys_in : List Element → List Bytes
keys_in [] = []
keys_in (key_element ps ∷ es) = text_of ps ∷ keys_in es
keys_in (e ∷ es) = keys_in es

abbrev pub folders_in : List Element → List Bytes
folders_in [] = []
folders_in (folder_element ps ∷ es) = text_of ps ∷ folders_in es
folders_in (e ∷ es) = folders_in es

abbrev pub flag_in : Bool → List Element → Bool
flag_in b [] = b
flag_in b (truncated_element c ∷ es) = flag_in c es
flag_in b (e ∷ es) = flag_in b es

abbrev pub token_in : Option Bytes → List Element → Option Bytes
token_in t [] = t
token_in t (token_element ps ∷ es) = token_in (some (text_of ps)) es
token_in t (e ∷ es) = token_in t es

abbrev pub page_onto : ListPage → List Element → ListPage
page_onto p es = record {
  keys = p.keys ++ keys_in es;
  common_prefixes = p.common_prefixes ++ folders_in es;
  is_truncated = flag_in p.is_truncated es;
  next_token = token_in p.next_token es;
}
