-- ===== src/Rdap/Vcard/Fields.antt =====
-- The fields of a vCard.
use mathlib.Core.Path.{subst}
use proto_ip.Prelude.{
  Bool, List, Option, Option-cases, [], ap, append-nil, append_assoc, false, filter, if◌then◌else◌,
  inl, inr, is_empty, none, refl, some, sym, true, ◌++◌, ◌∙◌, ◌∷◌, ◌≡◌,
}
use proto_ip.Golang.Choice.{
  first_text, given, given-append, keep_or, keep_or-append, keep_or_none, last_text,
  last_text-append,
}
use proto_ip.Golang.Text.{Text}
use proto_ip.Rdap.Vcard.{
  Entry, JsonText, Property, VcardResult, add_email, adr, email, empty_card, or_kept, or_label,
  parse_vcard, raw_entries, read_entry, take_entries, take_entry, take_property, take_raw, tel,
  unread,
}

-- The entries that the loop reads, in order.
unfoldable pub entries_of : JsonText → List Text → List Entry
entries_of d [] = []
entries_of d (raw ∷ raws) =
    let rest = entries_of d raws in elim (read_entry d raw) [ none ↦ rest | some e ↦ e ∷ rest ]

abbrev is_property : Property → Property → Bool
is_property Property.fn Property.fn = true
is_property Property.kind Property.kind = true
is_property Property.org Property.org = true
is_property email email = true
is_property tel tel = true
is_property adr adr = true
is_property unread unread = true
is_property _ _ = false

one : Option Text → List Text
one none = []
one (some x) = x ∷ []

value_at : JsonText → Property → Property → Text → List Text
unfolding one
value_at d p q value = if is_property p q then one (d.string value) else []

label_at : JsonText → Property → Text → List Text
unfolding one
label_at d q params = if is_property adr q then one (d.label params) else []

-- The strings that the entries of a property hold, in order.
pub values : JsonText → Property → List Entry → List Text
values d p [] = []
values d p (e ∷ es) = value_at d p e.property e.value ++ values d p es

-- The labels of the addresses, in order.
pub labels : JsonText → List Entry → List Text
labels d [] = []
labels d (e ∷ es) = label_at d e.property e.params ++ labels d es

-- What a card holds once the values `vs` of each property and the labels have been read behind
-- what was there before.
record IsCard (before : VcardResult) (vs : Property → List Text) (ls : List Text)
    (card : VcardResult) : Type 0 where
  fn_of : card.fn ≡ last_text before.fn (vs Property.fn)
  kind_of : card.kind ≡ last_text before.kind (vs Property.kind)
  org_of : card.org ≡ last_text before.org (vs Property.org)
  address_of : card.address ≡ last_text before.address (given ls)
  phone_of : card.phone ≡ keep_or before.phone (vs tel)
  emails_of : card.emails ≡ before.emails ++ given (vs email)

or_kept-last : (o : Option Text) (t : Text) → or_kept o t ≡ last_text t (one o)
unfolding or_kept last_text one
or_kept-last none t = refl
or_kept-last (some x) t = refl

or_label-last : (o : Option Text) (t : Text) → or_label o t ≡ last_text t (given (one o))
unfolding or_label last_text one given filter
or_label-last none t = refl
or_label-last (some []) t = refl
or_label-last (some (c ∷ x)) t = refl

add_email-given : (o : Option Text) (ts : List Text) → add_email o ts ≡ ts ++ given (one o)
unfolding add_email one given filter
add_email-given none ts = sym (append-nil ts)
add_email-given (some []) ts = sym (append-nil ts)
add_email-given (some (c ∷ x)) ts = refl

phone-keep_or :
    (o : Option Text) (t : Text) → (if is_empty t then or_kept o t else t) ≡ keep_or t (one o)
unfolding or_kept one keep_or first_text
phone-keep_or none [] = refl
phone-keep_or none (c ∷ t) = refl
phone-keep_or (some []) [] = refl
phone-keep_or (some (c ∷ x)) [] = refl
phone-keep_or (some x) (c ∷ t) = refl

take_property-IsCard :
    (d : JsonText) (q : Property) (params value : Text) (res : VcardResult)
    → IsCard res
        (λ p. value_at d p q value)
        (label_at d q params)
        (take_property d q params value res)
unfolding take_property value_at label_at last_text given filter
take_property-IsCard d Property.fn params value res = record {
  fn_of = or_kept-last (d.string value) res.fn;
  kind_of = refl;
  org_of = refl;
  address_of = refl;
  phone_of = sym (keep_or_none res.phone);
  emails_of = sym (append-nil res.emails);
}
take_property-IsCard d Property.kind params value res = record {
  fn_of = refl;
  kind_of = or_kept-last (d.string value) res.kind;
  org_of = refl;
  address_of = refl;
  phone_of = sym (keep_or_none res.phone);
  emails_of = sym (append-nil res.emails);
}
take_property-IsCard d Property.org params value res = record {
  fn_of = refl;
  kind_of = refl;
  org_of = or_kept-last (d.string value) res.org;
  address_of = refl;
  phone_of = sym (keep_or_none res.phone);
  emails_of = sym (append-nil res.emails);
}
take_property-IsCard d email params value res = record {
  fn_of = refl;
  kind_of = refl;
  org_of = refl;
  address_of = refl;
  phone_of = sym (keep_or_none res.phone);
  emails_of = add_email-given (d.string value) res.emails;
}
take_property-IsCard d tel params value res = record {
  fn_of = refl;
  kind_of = refl;
  org_of = refl;
  address_of = refl;
  phone_of = phone-keep_or (d.string value) res.phone;
  emails_of = sym (append-nil res.emails);
}
take_property-IsCard d adr params value res = record {
  fn_of = refl;
  kind_of = refl;
  org_of = refl;
  address_of = or_label-last (d.label params) res.address;
  phone_of = sym (keep_or_none res.phone);
  emails_of = sym (append-nil res.emails);
}
take_property-IsCard d unread params value res = record {
  fn_of = refl;
  kind_of = refl;
  org_of = refl;
  address_of = refl;
  phone_of = sym (keep_or_none res.phone);
  emails_of = sym (append-nil res.emails);
}

IsCard-append :
    {a b c : VcardResult} (vs ws : Property → List Text) (ls ms : List Text)
    → IsCard a vs ls b
    → IsCard b ws ms c
    → IsCard a (λ p. vs p ++ ws p) (ls ++ ms) c
IsCard-append {a} vs ws ls ms h k = record {
  fn_of = rw (last_text-append a.fn (vs Property.fn) (ws Property.fn), sym h.fn_of) k.fn_of;
  kind_of =
      rw (last_text-append a.kind (vs Property.kind) (ws Property.kind), sym h.kind_of) k.kind_of;
  org_of = rw (last_text-append a.org (vs Property.org) (ws Property.org), sym h.org_of) k.org_of;
  address_of =
      rw (given-append ls ms, last_text-append a.address (given ls) (given ms), sym h.address_of)
        k.address_of;
  phone_of = rw (keep_or-append a.phone (vs tel) (ws tel), sym h.phone_of) k.phone_of;
  emails_of =
      k.emails_of
      ∙ (rw (h.emails_of, given-append (vs email) (ws email))
          (append_assoc a.emails (given (vs email)) (given (ws email))));
}

entries_of-skip :
    (d : JsonText) (raw : Text) (raws : List Text)
    → read_entry d raw ≡ none
    → entries_of d (raw ∷ raws) ≡ entries_of d raws
unfolding entries_of
entries_of-skip d raw raws h = rw (h, entries_of) refl

entries_of-read :
    (d : JsonText) (raw : Text) (raws : List Text) (e : Entry)
    → read_entry d raw ≡ some e
    → entries_of d (raw ∷ raws) ≡ e ∷ entries_of d raws
unfolding entries_of
entries_of-read d raw raws e h = rw (h, entries_of) refl

take_raw-skip :
    (d : JsonText) (res : VcardResult) (raw : Text)
    → read_entry d raw ≡ none
    → take_raw d res raw ≡ res
unfolding take_raw
take_raw-skip d res raw h = rw (h, take_raw) refl

take_raw-read :
    (d : JsonText) (res : VcardResult) (raw : Text) (e : Entry)
    → read_entry d raw ≡ some e
    → take_raw d res raw ≡ take_property d e.property e.params e.value res
unfolding take_raw take_entry
take_raw-read d res raw e h = rw (h, take_raw) refl

carry :
    (d : JsonText) (res : VcardResult) {es fs : List Entry} {card other_card : VcardResult}
    → es ≡ fs
    → card ≡ other_card
    → IsCard res (λ p. values d p fs) (labels d fs) other_card
    → IsCard res (λ p. values d p es) (labels d es) card
carry d res {fs = fs} {card = card} e f h =
    subst (λ (x : List Entry). IsCard res (λ p. values d p x) (labels d x) card) (sym e)
      (subst (IsCard res (λ p. values d p fs) (labels d fs)) (sym f) h)

take_entries-IsCard :
    (d : JsonText) (raws : List Text) (res : VcardResult)
    → IsCard res
        (λ p. values d p (entries_of d raws))
        (labels d (entries_of d raws))
        (take_entries d res raws)
unfolding take_entries entries_of values labels
take_entries-IsCard d [] res = record {
  fn_of = unfold last_text in refl;
  kind_of = unfold last_text in refl;
  org_of = unfold last_text in refl;
  address_of = unfold last_text given filter in refl;
  phone_of = sym (keep_or_none res.phone);
  emails_of = unfold given filter in sym (append-nil res.emails);
}
take_entries-IsCard d (raw ∷ raws) res = elim (Option-cases (read_entry d raw)) [
  | inl skipped ↦
      carry d res (entries_of-skip d raw raws skipped)
        (ap (λ (r : VcardResult). take_entries d r raws) (take_raw-skip d res raw skipped))
        (take_entries-IsCard d raws res)
  | inr (e, read) ↦
      carry d res (entries_of-read d raw raws e read)
        (ap (λ (r : VcardResult). take_entries d r raws) (take_raw-read d res raw e read))
        (IsCard-append (λ p. value_at d p e.property e.value) (λ p. values d p (entries_of d raws))
          (label_at d e.property e.params) (labels d (entries_of d raws))
          (take_property-IsCard d e.property e.params e.value res)
          (take_entries-IsCard d raws (take_property d e.property e.params e.value res)))
]

-- A vCard's name, kind and organisation are each the last string that an entry of the property
-- holds, its address the last label of an address that is not empty, its phone the first telephone
-- string that is not empty, and its emails the email strings that are not empty, in order; what no
-- entry gives is empty.
pub parse_vcard-fields :
    (d : JsonText) (raw : Text)
    → let es = entries_of d (raw_entries d raw) in
      ((parse_vcard d raw).fn ≡ last_text [] (values d Property.fn es))
      × ((parse_vcard d raw).kind ≡ last_text [] (values d Property.kind es))
      × ((parse_vcard d raw).org ≡ last_text [] (values d Property.org es))
      × ((parse_vcard d raw).address ≡ last_text [] (given (labels d es)))
      × ((parse_vcard d raw).phone ≡ first_text (values d tel es))
      × ((parse_vcard d raw).emails ≡ given (values d email es))
unfolding parse_vcard
parse_vcard-fields d raw =
    let card = take_entries-IsCard d (raw_entries d raw) empty_card in
    (
      card.fn_of,
      card.kind_of,
      card.org_of,
      card.address_of,
      card.phone_of ∙ (unfold keep_or first_text in refl),
      card.emails_of,
    )
