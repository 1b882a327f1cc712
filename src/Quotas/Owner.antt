-- ===== src/Quotas/Owner.antt =====
-- `quota_owner` of src/governance/admission_quotas.py: who a quota is counted for.
use agentbridge.Base.{String, Bool, false, not, ◌&&◌, Option, none, some}
use agentbridge.Authority.Outcome.{Outcome, done, deny_if, invalid_if, ◌>>◌}
use agentbridge.Authority.Tables.{Kind, Principal}
use agentbridge.Authority.Text.{is_sized, is_plain, is_identifier, is_subject}
use agentbridge.Authority.Current.{is_agent_kind}

-- What `quota_owner` hashes.
pub record OwnerMaterial : Type 0 where
  pub tenant_id : Option String
  pub kind : Kind
  pub issuer : String
  pub subject : String

abbrev pub known_tenant : Option String → Bool
known_tenant none = false
known_tenant (some t) = is_identifier t

module _ (sha256 : OwnerMaterial → String) where
  -- `quota_owner`
  unfoldable pub quota_owner : Principal → Outcome String
  quota_owner p = do
    deny_if (not (is_agent_kind p.kind))
    deny_if (not (is_sized 2048 p.issuer && is_plain p.issuer))
    invalid_if (not (known_tenant p.tenant_id))
    invalid_if (not (is_subject p.subject))
    done (
        sha256 (record {
          tenant_id = p.tenant_id;
          kind = p.kind;
          issuer = p.issuer;
          subject = p.subject;
        }))
