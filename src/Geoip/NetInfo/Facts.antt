-- ===== src/Geoip/NetInfo/Facts.antt =====
-- The facts taken from a registration.
use proto_ip.Prelude.{List, [], ap, arith, refl, sym, ◌++◌, ◌∙◌, ◌∷◌, ◌≡◌}
use proto_ip.Geoip.NetInfo.{
  AutnumFacts, autnum_facts_from_rdap, first_non_empty, set_abuse, take_entities, take_role,
  take_roles,
}
use proto_ip.Golang.Choice.{first_text, keep_or, keep_or-append, keep_or_none, keep_or_one}
use proto_ip.Golang.Text.{Text}
use proto_ip.Messages.Rdap.{RdapAutnum, RdapEntity, RdapRole, registrant}

abbrev first_email : List Text → List Text
first_email [] = []
first_email (x ∷ xs) = x ∷ []

-- What one role offers: as organisation the entity's org, or its name, for a registrant; as abuse
-- address the entity's first email for an abuse contact.
pub org_offer : RdapEntity → RdapRole → List Text
org_offer e registrant = first_non_empty e.org e.fn ∷ []
org_offer e _ = []

pub abuse_offer : RdapEntity → RdapRole → List Text
abuse_offer e RdapRole.abuse = first_email e.emails
abuse_offer e _ = []

-- What the roles of the entities offer, in order.
offers_of_roles : (RdapRole → List Text) → List RdapRole → List Text
offers_of_roles offer [] = []
offers_of_roles offer (r ∷ rs) = offer r ++ offers_of_roles offer rs

pub offers : (RdapEntity → RdapRole → List Text) → List RdapEntity → List Text
offers offer [] = []
offers offer (e ∷ es) = offers_of_roles (offer e) e.roles ++ offers offer es

set_abuse-fields :
    (f : AutnumFacts) (es : List Text)
    → ((set_abuse f es).org ≡ f.org) × ((set_abuse f es).abuse ≡ keep_or f.abuse (first_email es))
unfolding set_abuse
set_abuse-fields f [] = (refl, sym (keep_or_none f.abuse))
set_abuse-fields f (e ∷ es) = ground (arith, keep_or_one f.abuse e)

take_role-fields :
    (e : RdapEntity) (f : AutnumFacts) (r : RdapRole)
    → ((take_role e f r).org ≡ keep_or f.org (org_offer e r))
      × ((take_role e f r).abuse ≡ keep_or f.abuse (abuse_offer e r))
unfolding take_role org_offer abuse_offer
take_role-fields e f registrant =
    ground (arith, keep_or_one f.org (first_non_empty e.org e.fn), keep_or_none f.abuse)
take_role-fields e f RdapRole.abuse =
    ground (arith, keep_or_none f.org, set_abuse-fields f e.emails)
take_role-fields e f _ = (sym (keep_or_none f.org), sym (keep_or_none f.abuse))

take_roles-fields :
    (e : RdapEntity) (f : AutnumFacts) (rs : List RdapRole)
    → ((take_roles e f rs).org ≡ keep_or f.org (offers_of_roles (org_offer e) rs))
      × ((take_roles e f rs).abuse ≡ keep_or f.abuse (offers_of_roles (abuse_offer e) rs))
unfolding take_roles offers_of_roles
take_roles-fields e f [] = (sym (keep_or_none f.org), sym (keep_or_none f.abuse))
take_roles-fields e f (r ∷ rs) =
    let (p, q) = take_roles-fields e (take_role e f r) rs in
    let (a, b) = take_role-fields e f r in
    (
      p
          ∙ ap (λ (t : Text). keep_or t (offers_of_roles (org_offer e) rs)) a
          ∙ sym (keep_or-append f.org (org_offer e r) (offers_of_roles (org_offer e) rs)),
      q
          ∙ ap (λ (t : Text). keep_or t (offers_of_roles (abuse_offer e) rs)) b
          ∙ sym (keep_or-append f.abuse (abuse_offer e r) (offers_of_roles (abuse_offer e) rs)),
    )

take_entities-fields :
    (f : AutnumFacts) (es : List RdapEntity)
    → ((take_entities f es).org ≡ keep_or f.org (offers org_offer es))
      × ((take_entities f es).abuse ≡ keep_or f.abuse (offers abuse_offer es))
unfolding take_entities offers
take_entities-fields f [] = (sym (keep_or_none f.org), sym (keep_or_none f.abuse))
take_entities-fields f (e ∷ es) =
    let (p, q) = take_entities-fields (take_roles e f e.roles) es in
    let (a, b) = take_roles-fields e f e.roles in
    (
      p
          ∙ ap (λ (t : Text). keep_or t (offers org_offer es)) a
          ∙ sym
              (keep_or-append f.org (offers_of_roles (org_offer e) e.roles) (offers org_offer es)),
      q
          ∙ ap (λ (t : Text). keep_or t (offers abuse_offer es)) b
          ∙ sym (
              keep_or-append f.abuse (offers_of_roles (abuse_offer e) e.roles)
                (offers abuse_offer es)),
    )

-- The organisation of an AS is the first non-empty name that a registrant entity offers, over all
-- entities and roles in order, and its abuse address the first non-empty one that an abuse contact
-- offers; each is empty if none is offered.
pub autnum_facts-first :
    (a : RdapAutnum)
    → ((autnum_facts_from_rdap a).org ≡ first_text (offers org_offer a.entities))
      × ((autnum_facts_from_rdap a).abuse ≡ first_text (offers abuse_offer a.entities))
unfolding autnum_facts_from_rdap keep_or first_text
autnum_facts-first a = take_entities-fields _ a.entities
