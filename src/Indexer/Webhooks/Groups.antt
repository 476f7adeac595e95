-- ===== src/Indexer/Webhooks/Groups.antt =====
-- The loop of `list_webhooks` of backend/indexer/src/db.rs, on the rows of its query: it puts the
-- event types of adjacent rows with one id together.
use Prim.Native.String.{String}
use mathlib.Core.List.{append-nil, append_assoc}
use pifp_stellar.Base.{
  ℕ, eqb_ℕ, ==-refl, ◌≡◌, arith, refl, Bool, true, false, List, [], ◌∷◌, ◌++◌, if◌then◌else◌, ap,
  sym, ◌∙◌,
}

-- A row of `webhooks` and one of its event types.
pub record Row : Type 0 where
  pub id : ℕ
  pub url : String
  pub enabled : Bool
  pub created_at : ℕ
  pub event_type : String

pub record WebhookRegistration : Type 0 where
  pub id : ℕ
  pub url : String
  pub event_types : List String
  pub enabled : Bool
  pub created_at : ℕ

abbrev single : Row → WebhookRegistration
single r = record {
  id = r.id;
  url = r.url;
  event_types = r.event_type ∷ [];
  enabled = r.enabled;
  created_at = r.created_at;
}

abbrev add_type : String → WebhookRegistration → WebhookRegistration
add_type t w = record w { event_types = w.event_types ++ (t ∷ []) }

-- The change that a row makes of `out`, at its last element.
abbrev pub push_row : Row → List WebhookRegistration → List WebhookRegistration
push_row r [] = single r ∷ []
push_row r (w ∷ []) = if eqb_ℕ w.id r.id then add_type r.event_type w ∷ [] else w ∷ single r ∷ []
push_row r (w ∷ w' ∷ ws) = w ∷ push_row r (w' ∷ ws)

unfoldable pub group_rows : List WebhookRegistration → List Row → List WebhookRegistration
group_rows out [] = out
group_rows out (r ∷ rows) = group_rows (push_row r out) rows

unfoldable pub list_webhooks : List Row → List WebhookRegistration
list_webhooks rows = group_rows [] rows

-- The rows of a registration.
abbrev pub row_of : WebhookRegistration → String → Row
row_of w t = record {
  id = w.id;
  url = w.url;
  enabled = w.enabled;
  created_at = w.created_at;
  event_type = t;
}

abbrev pub rows_of : WebhookRegistration → List String → List Row
rows_of w [] = []
rows_of w (t ∷ ts) = row_of w t ∷ rows_of w ts

abbrev pub ungroup : List WebhookRegistration → List Row
ungroup [] = []
ungroup (w ∷ ws) = rows_of w w.event_types ++ ungroup ws

-- Webhooks as a list of them has them: none without a type, and no two that stand together with one
-- id.
abbrev has_type : WebhookRegistration → Bool
has_type w = elim w.event_types [ [] ↦ false | _ ∷ _ ↦ true ]

abbrev pub Separate : List WebhookRegistration → Type 0
Separate [] = Unit
Separate (w ∷ []) = has_type w ≡ true
Separate (w ∷ w' ∷ ws) = (has_type w ≡ true) × (eqb_ℕ w.id w'.id ≡ false) × Separate (w' ∷ ws)

abbrev pub with_types : WebhookRegistration → List String → WebhookRegistration
with_types w ts = record w { event_types = ts }

push-last :
    (r : Row) (out : List WebhookRegistration) (w : WebhookRegistration)
    → push_row r (out ++ (w ∷ []))
      ≡ out ++ (if eqb_ℕ w.id r.id then add_type r.event_type w ∷ [] else w ∷ single r ∷ [])
push-last r [] w = refl
push-last r (o ∷ []) w = refl
push-last r (o ∷ o' ∷ os) w = ap (λ rest. o ∷ rest) (push-last r (o' ∷ os) w)

types_of :
    (w : WebhookRegistration)
    → has_type w ≡ true
    → (t : String) × (ts : List String) × (w.event_types ≡ t ∷ ts)
types_of w h =
    elim (w.event_types)
        as (λ types.
          w.event_types ≡ types
          → (elim types [ [] ↦ false | _ ∷ _ ↦ true ]) ≡ true
          → (t : String) × (ts : List String) × (w.event_types ≡ t ∷ ts)) [
            | [] ↦ λ e no. absurd (ground (arith, no))
            | t ∷ ts ↦ λ e yes. (t, ts, e)
          ]
      refl h

has_type-Separate :
    (w : WebhookRegistration) (ws : List WebhookRegistration)
    → Separate (w ∷ ws)
    → has_type w ≡ true
has_type-Separate w [] h = h
has_type-Separate w (v ∷ vs) h = h.0

-- The rows of one webhook, after one of them.
group-rows_of :
    (w : WebhookRegistration) (ts seen : List String) (out : List WebhookRegistration)
    (rest : List Row)
    → group_rows (out ++ (with_types w seen ∷ [])) (rows_of w ts ++ rest)
      ≡ group_rows (out ++ (with_types w (seen ++ ts) ∷ [])) rest
unfolding group_rows
group-rows_of w [] seen out rest = rw (append-nil seen) refl
group-rows_of w (t ∷ ts) seen out rest =
    let pushed : push_row (row_of w t) (out ++ (with_types w seen ∷ []))
        ≡ out ++ (with_types w (seen ++ (t ∷ [])) ∷ []) =
      push-last (row_of w t) out (with_types w seen) ∙ rw (==-refl w.id) refl in
    rw (group_rows, pushed, sym (append_assoc seen (t ∷ []) ts))
      (group-rows_of w ts (seen ++ (t ∷ [])) out rest)

-- The first row of the next webhook, and the others.
group-next :
    (out : List WebhookRegistration) (w v : WebhookRegistration) (t : String) (ts : List String)
    (rest : List Row)
    → eqb_ℕ w.id v.id ≡ false
    → group_rows (out ++ (w ∷ [])) (rows_of v (t ∷ ts) ++ rest)
      ≡ group_rows ((out ++ (w ∷ [])) ++ (with_types v (t ∷ ts) ∷ [])) rest
unfolding group_rows
group-next out w v t ts rest h =
    let pushed : push_row (row_of v t) (out ++ (w ∷ []))
        ≡ (out ++ (w ∷ [])) ++ (with_types v (t ∷ []) ∷ []) =
      push-last (row_of v t) out w
      ∙ (rw h refl ∙ sym (append_assoc out (w ∷ []) (with_types v (t ∷ []) ∷ []))) in
    rw (group_rows, pushed) (group-rows_of v ts (t ∷ []) (out ++ (w ∷ [])) rest)

group-after :
    (out ws : List WebhookRegistration) (w : WebhookRegistration)
    → Separate (w ∷ ws)
    → group_rows (out ++ (w ∷ [])) (ungroup ws) ≡ out ++ (w ∷ ws)
unfolding group_rows
group-after out [] w h = refl
group-after out (v ∷ vs) w (_, apart, rest) =
    let (t, ts, e) = types_of v (has_type-Separate v vs rest) in
    let v' = with_types v (t ∷ ts) in
    let same : v' ≡ v = ap (with_types v) (sym e) in
    let first : group_rows (out ++ (w ∷ [])) (ungroup (v ∷ vs))
        ≡ group_rows ((out ++ (w ∷ [])) ++ (v' ∷ [])) (ungroup vs) =
      rw e (group-next out w v t ts (ungroup vs) apart) in
    let after : group_rows ((out ++ (w ∷ [])) ++ (v' ∷ [])) (ungroup vs)
        ≡ (out ++ (w ∷ [])) ++ (v ∷ vs) =
      rw same (group-after (out ++ (w ∷ [])) vs v rest) in
    first ∙ (after ∙ append_assoc out (w ∷ []) (v ∷ vs))

-- If every webhook has a type and no two that stand together have one id, then from their rows the
-- loop makes the webhooks again.
pub list_webhooks-ungroup :
    (ws : List WebhookRegistration) → Separate ws → list_webhooks (ungroup ws) ≡ ws
unfolding list_webhooks group_rows
list_webhooks-ungroup [] h = refl
list_webhooks-ungroup (w ∷ ws) h =
    let (t, ts, e) = types_of w (has_type-Separate w ws h) in
    let w' = with_types w (t ∷ ts) in
    let same : w' ≡ w = ap (with_types w) (sym e) in
    let first : list_webhooks (ungroup (w ∷ ws)) ≡ group_rows (w' ∷ []) (ungroup ws) =
      rw e (group-rows_of w ts (t ∷ []) [] (ungroup ws)) in
    let after : group_rows (w' ∷ []) (ungroup ws) ≡ w ∷ ws = rw same (group-after [] ws w h) in
    first ∙ after
