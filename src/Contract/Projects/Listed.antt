-- ===== src/Contract/Projects/Listed.antt =====
-- The whitelist entry points.
use pifp_stellar.Base.{ℕ, ⊤, Bool, ◌≡◌, ◌⊎◌, arith, true, false, some, [], ◌∷◌}
use pifp_stellar.Base.Maps.{update₂}
use pifp_stellar.Contract.Types.{Address, ProjectConfig, super_admin, admin}
use pifp_stellar.Contract.Env.{Env, Ctx, Outcome, ok}
use pifp_stellar.Contract.Rbac.{holds_any}
use pifp_stellar.Contract.Admin.Frame.{SameProjects}
use pifp_stellar.Contract.Projects.{add_to_whitelist, remove_from_whitelist}

module _ {W : Type 0} (ctx : Ctx) (caller : Address) (id : ℕ) (address : Address)
    (env e : Env W) where
  -- Adding to the whitelist of a project that is there, when it returns, was authorised by the caller, who created the project
  -- or is an admin, and changes that one entry.
  pub add_to_whitelist-ok :
      (config : ProjectConfig)
      → env.store.proj_config id ≡ some config
      → add_to_whitelist ctx caller id address env ≡ ok tt e
      → (ctx.authorized caller ≡ true)
        × ((caller ≡ config.creator)
            ⊎ (holds_any (env.store.role caller) (super_admin ∷ admin ∷ []) ≡ true))
        × (e.store ≡ record (env.store) { whitelist = update₂ env.store.whitelist id address true })
        × (e.tokens ≡ env.tokens)
  unfolding add_to_whitelist
  add_to_whitelist-ok config hc h = ground arith

  -- Removing from the whitelist of a project that is there, when it returns, was authorised by the
  -- caller, who created the project or is an admin, and changes that one entry.
  pub remove_from_whitelist-ok :
      (config : ProjectConfig)
      → env.store.proj_config id ≡ some config
      → remove_from_whitelist ctx caller id address env ≡ ok tt e
      → (ctx.authorized caller ≡ true)
        × ((caller ≡ config.creator)
            ⊎ (holds_any (env.store.role caller) (super_admin ∷ admin ∷ []) ≡ true))
        × (e.store
            ≡ record (env.store) { whitelist = update₂ env.store.whitelist id address false })
        × (e.tokens ≡ env.tokens)
  unfolding remove_from_whitelist
  remove_from_whitelist-ok config hc h = ground arith

  -- The two entry points.
  abbrev pub edit_whitelist : Bool → Outcome W ⊤
  edit_whitelist true = add_to_whitelist ctx caller id address env
  edit_whitelist false = remove_from_whitelist ctx caller id address env

  -- Adding to the whitelist of a project that is there, or removing from it, when it returns, was
  -- authorised by the caller, who created the project or is an admin, and changes that one entry.
  pub edit_whitelist-ok :
      (added : Bool) (config : ProjectConfig)
      → env.store.proj_config id ≡ some config
      → edit_whitelist added ≡ ok tt e
      → (ctx.authorized caller ≡ true)
        × ((caller ≡ config.creator)
            ⊎ (holds_any (env.store.role caller) (super_admin ∷ admin ∷ []) ≡ true))
        × (e.store
            ≡ record (env.store) { whitelist = update₂ env.store.whitelist id address added })
        × (e.tokens ≡ env.tokens)
  edit_whitelist-ok true config hc h = add_to_whitelist-ok config hc h
  edit_whitelist-ok false config hc h = remove_from_whitelist-ok config hc h

  pub add_to_whitelist-SameProjects :
      add_to_whitelist ctx caller id address env ≡ ok tt e → SameProjects env e
  unfolding add_to_whitelist
  add_to_whitelist-SameProjects h = ground arith

  pub remove_from_whitelist-SameProjects :
      remove_from_whitelist ctx caller id address env ≡ ok tt e → SameProjects env e
  unfolding remove_from_whitelist
  remove_from_whitelist-SameProjects h = ground arith
