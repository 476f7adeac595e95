-- ===== src/Oracle/Batch/Read.antt =====
-- What `build_task_list` of backend/oracle/src/main.rs reads from a batch.
use Prim.Native.String
use Prim.Native.String.{String}
use text.Mathlib.Text.{◌==◌}
use text.Mathlib.TextEquality.{eq_iff}
use pifp_stellar.Base.{
  ℕ, ◌≡◌, ◌^◌, ◌<◌, arith, refl, inl, inr, true, false, Option, some, List, [], ◌∷◌, Bool-cases,
}
use pifp_stellar.Base.Text.{is_whitespace}
use pifp_stellar.Base.Decimal.{decimal, all_digits, decimal-digits, parse_uint-decimal}
use pifp_stellar.Base.Parts.{
  has_code, join_parts, Lack, split-join_parts, split_once-append, has_code-append, is_solid,
  is_solid-append, trim_solid,
}
use pifp_stellar.Base.Result.{ok}
use pifp_stellar.Oracle.Batch.{ProofTask, task, read_entry, read_entries, build_task_list}

-- `id:cid`.
abbrev pub entry_text : ProofTask → String
entry_text t = String.◌++◌ (decimal t.project_id) (String.◌∷◌ ":" t.proof_cid)

-- The id is a u64, and the CID is not empty and has neither white space nor a comma.
pub record Writable (t : ProofTask) : Type 0 where
  pub id_fits : t.project_id < 2 ^ 64
  pub cid_some : (t.proof_cid == "") ≡ false
  pub cid_solid : is_solid t.proof_cid ≡ true
  pub no_comma : has_code b',' t.proof_cid ≡ false

abbrev pub AllWritable : List ProofTask → Type 0
AllWritable [] = Unit
AllWritable (t ∷ ts) = Writable t × AllWritable ts

digits_solid : (s : String) → all_digits s ≡ true → is_solid s ≡ true
unfolding is_whitespace
digits_solid String.[] h = refl
digits_solid (String.◌∷◌ c s) h = ground (arith, digits_solid s)

digits_lack : (n : ℕ) (s : String) → b'9' < n → all_digits s ≡ true → has_code n s ≡ false
digits_lack n String.[] big h = refl
digits_lack n (String.◌∷◌ c s) big h = ground (arith, digits_lack n s big)

digits_lack_comma : (s : String) → all_digits s ≡ true → has_code b',' s ≡ false
digits_lack_comma String.[] h = refl
digits_lack_comma (String.◌∷◌ c s) h = ground (arith, digits_lack_comma s)

entry-solid : (t : ProofTask) → Writable t → is_solid (entry_text t) ≡ true
unfolding is_whitespace
entry-solid t w =
    rw (is_solid-append ":" (decimal t.project_id) t.proof_cid) (
      ground
        (arith, digits_solid (decimal t.project_id) (decimal-digits t.project_id), w.cid_solid))

entry-lacks : (t : ProofTask) → Writable t → has_code b',' (entry_text t) ≡ false
entry-lacks t w = rw (has_code-append b',' ":" (decimal t.project_id) t.proof_cid) (
    ground
      (arith, digits_lack_comma (decimal t.project_id) (decimal-digits t.project_id), w.no_comma))

entry-some : (t : ProofTask) → (entry_text t == "") ≡ false
entry-some t = elim (Bool-cases (entry_text t == "")) [
  | inl e ↦
      let same : entry_text t ≡ "" = ground (arith, e, eq_iff (entry_text t) "") in
      let colon : has_code b':' (entry_text t) ≡ true =
        rw (has_code-append b':' ":" (decimal t.project_id) t.proof_cid) (ground arith) in
      absurd (ground (arith, rw same at colon))
  | inr e ↦ e
]

read-entry_text : (t : ProofTask) → Writable t → read_entry (entry_text t) ≡ task t
unfolding read_entry
read-entry_text t w =
    let cut =
      split_once-append ":" (decimal t.project_id) t.proof_cid
        (digits_lack b':' (decimal t.project_id) (omega arith) (decimal-digits t.project_id)) in
    rw (trim_solid (entry_text t) (entry-solid t w), entry-some t, cut)
      (rw
        (
          trim_solid (decimal t.project_id)
              (digits_solid (decimal t.project_id) (decimal-digits t.project_id)),
          parse_uint-decimal t.project_id w.id_fits,
          trim_solid t.proof_cid w.cid_solid,
        )
        (ground (arith, w.cid_some)))

-- The entries of the tasks.
abbrev pub entries : List ProofTask → List String
entries [] = []
entries (t ∷ ts) = entry_text t ∷ entries ts

entries-Lack : (ts : List ProofTask) → AllWritable ts → Lack b',' (entries ts)
entries-Lack [] w = tt
entries-Lack (t ∷ ts) (w, ws) = (entry-lacks t w, entries-Lack ts ws)

read-entries : (ts : List ProofTask) → AllWritable ts → read_entries (entries ts) ≡ ok ts
unfolding read_entries
read-entries [] w = refl
read-entries (t ∷ ts) (w, ws) = rw (read_entries, read-entry_text t w, read-entries ts ws) refl

-- If every task has a u64 and a CID that is not empty and has neither white space nor a comma, then
-- the tasks, of which there is at least one, written as `id:cid` with commas between them, are read back as
-- they are.
pub build_task_list-join_parts :
    (t : ProofTask) (ts : List ProofTask) (id : Option ℕ) (cid : Option String)
    → AllWritable (t ∷ ts)
    → let batch = join_parts "," (entries (t ∷ ts)) in
      build_task_list (record { project_id = id; proof_cid = cid; batch = some batch })
      ≡ ok (t ∷ ts)
unfolding build_task_list
build_task_list-join_parts t ts id cid w =
    rw (split-join_parts "," (entry_text t) (entries ts) (entries-Lack (t ∷ ts) w))
      (read-entries (t ∷ ts) w)
