-- ===== src/Rdap/Vcard.antt =====
-- rdap/client.go, `parseVCard`. A raw JSON value is a text, and the decoder of encoding/json is a
-- parameter.
pub mod Fields
use proto_ip.Prelude.{
  List, Option, [], if◌then◌else◌, is_empty, length, list_eq, ltb, nat_eq, none, some, ◌++◌, ◌==◌,
  ◌∷◌,
}
use proto_ip.Golang.Text.{Text, codes, nth}

pub record JsonText : Type 0 where
  -- json.Unmarshal into []json.RawMessage; none is an error.
  pub array : Text → Option (List Text)
  -- into a string; none where the string keeps its value, by an error or a null.
  pub string : Text → Option Text
  -- into a struct with the member "label", empty without one; none is an error.
  pub label : Text → Option Text

pub record VcardResult : Type 0 where
  pub fn : Text
  pub kind : Text
  pub org : Text
  pub address : Text
  pub phone : Text
  pub emails : List Text

-- The cases of the switch on the property's name.
pub data Property : Type 0 where
  fn kind org email tel adr unread : Property

unfoldable pub property_of : Text → Property
property_of prop =
    if prop == codes "fn"
    then Property.fn
    else if prop == codes "kind"
    then Property.kind
    else if prop == codes "org"
    then Property.org
    else if prop == codes "email"
    then email
    else if prop == codes "tel"
    then tel
    else if prop == codes "adr"
    then adr
    else unread

-- An entry of the vCard: its property, the raw parameters and the raw value.
pub record Entry : Type 0 where
  pub property : Property
  pub params : Text
  pub value : Text

-- The name and the parts of an entry with four fields or more.
unfoldable pub entry_of_fields : JsonText → List Text → Option Entry
entry_of_fields d fields = if ltb (length fields) 4 then none else elim (d.string (nth 0 fields)) [
  | none ↦ none
  | some prop ↦
      some (record { property = property_of prop; params = nth 1 fields; value = nth 3 fields })
]

-- What the loop reads of an entry; none where it continues.
unfoldable pub read_entry : JsonText → Text → Option Entry
read_entry d raw = elim (d.array raw) [ none ↦ none | some fields ↦ entry_of_fields d fields ]

-- A decoded string, or the one that was there.
unfoldable pub or_kept : Option Text → Text → Text
or_kept none t = t
or_kept (some x) t = x

-- `if err == nil && email != "" { append }`
unfoldable pub add_email : Option Text → List Text → List Text
add_email none emails = emails
add_email (some x) emails = if is_empty x then emails else emails ++ x ∷ []

-- `if err == nil && params.Label != ""`
unfoldable pub or_label : Option Text → Text → Text
or_label none t = t
or_label (some x) t = if is_empty x then t else x

-- The switch of `parseVCard` on an entry with these parameters and this value.
unfoldable pub take_property : JsonText → Property → Text → Text → VcardResult → VcardResult
take_property d Property.fn params value res = record res { fn = or_kept (d.string value) res.fn }
take_property d Property.kind params value res = record res {
  kind = or_kept (d.string value) res.kind;
}
take_property d Property.org params value res = record res {
  org = or_kept (d.string value) res.org;
}
take_property d email params value res = record res {
  emails = add_email (d.string value) res.emails;
}
take_property d tel params value res = record res {
  phone = if is_empty res.phone then or_kept (d.string value) res.phone else res.phone;
}
take_property d adr params value res = record res {
  address = or_label (d.label params) res.address;
}
take_property d unread params value res = res

unfoldable pub take_entry : JsonText → VcardResult → Entry → VcardResult
take_entry d res e = take_property d e.property e.params e.value res

-- One round of the loop over the raw entries.
unfoldable pub take_raw : JsonText → VcardResult → Text → VcardResult
take_raw d res raw = elim (read_entry d raw) [ none ↦ res | some e ↦ take_entry d res e ]

unfoldable pub take_entries : JsonText → VcardResult → List Text → VcardResult
take_entries d res [] = res
take_entries d res (raw ∷ raws) = take_entries d (take_raw d res raw) raws

abbrev pub empty_card : VcardResult
empty_card = record { fn = []; kind = []; org = []; address = []; phone = []; emails = [] }

-- The raw entries: the second element of the array, if it has one.
unfoldable pub raw_entries : JsonText → Text → List Text
raw_entries d raw = if is_empty raw then [] else elim (d.array raw) [
  | none ↦ []
  | some top ↦
      if ltb (length top) 2
      then []
      else elim (d.array (nth 1 top)) [ none ↦ [] | some entries ↦ entries ]
]

-- parseVCard
unfoldable pub parse_vcard : JsonText → Text → VcardResult
parse_vcard d raw = take_entries d empty_card (raw_entries d raw)
