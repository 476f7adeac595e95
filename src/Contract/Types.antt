-- ===== src/Contract/Types.antt =====
-- contracts/pifp_protocol/src/types.rs, and the roles of rbac.rs. An address and a 32-byte hash are
-- only compared, so each is a number; a metadata URI is its bytes.
use pifp_stellar.Base.{ℕ, Bool, true, false, List, [], ◌∷◌, ◌==◌, if◌then◌else◌}
use pifp_stellar.Base.Int.{ℤ}

abbrev pub Address : Type 0
Address = ℕ

abbrev pub Hash : Type 0
Hash = ℕ

pub data ProjectStatus : Type 0 where
  funding active completed expired cancelled : ProjectStatus

pub record ProjectConfig : Type 0 where
  pub id : ℕ
  pub creator : Address
  pub accepted_tokens : List Address
  pub goal : ℤ
  pub proof_hash : Hash
  pub deadline : ℕ
  pub is_private : Bool
  pub metadata_uri : List ℕ

pub record ProjectState : Type 0 where
  pub status : ProjectStatus
  pub donation_count : ℕ
  pub refund_expiry : ℕ

pub record Project : Type 0 where
  pub id : ℕ
  pub creator : Address
  pub accepted_tokens : List Address
  pub goal : ℤ
  pub proof_hash : Hash
  pub metadata_uri : List ℕ
  pub deadline : ℕ
  pub status : ProjectStatus
  pub donation_count : ℕ
  pub is_private : Bool
  pub refund_expiry : ℕ

pub record TokenBalance : Type 0 where
  pub token : Address
  pub balance : ℤ

pub record ProjectBalances : Type 0 where
  pub project_id : ℕ
  pub balances : List TokenBalance

pub record ProtocolConfig : Type 0 where
  pub fee_recipient : Address
  pub fee_bps : ℕ

-- The loop of `accepts_token`, and of the same test in `deposit`.
unfoldable pub accepts : List Address → Address → Bool
accepts [] token = false
accepts (t ∷ ts) token = if t == token then true else accepts ts token

unfoldable pub accepts_token : Project → Address → Bool
accepts_token p token = accepts p.accepted_tokens token

-- The equality that `ProjectStatus` derives.
abbrev pub status_eq : ProjectStatus → ProjectStatus → Bool
status_eq funding funding = true
status_eq active active = true
status_eq completed completed = true
status_eq expired expired = true
status_eq cancelled cancelled = true
status_eq _ _ = false

-- `matches!(status, Funding | Active)`.
abbrev pub is_open : ProjectStatus → Bool
is_open funding = true
is_open active = true
is_open _ = false

-- `matches!(status, Expired | Cancelled)`.
abbrev pub is_refundable : ProjectStatus → Bool
is_refundable expired = true
is_refundable cancelled = true
is_refundable _ = false

pub data Role : Type 0 where
  super_admin admin oracle auditor project_manager : Role

-- The equality that `Role` derives.
abbrev pub role_eq : Role → Role → Bool
role_eq super_admin super_admin = true
role_eq admin admin = true
role_eq oracle oracle = true
role_eq auditor auditor = true
role_eq project_manager project_manager = true
role_eq _ _ = false
