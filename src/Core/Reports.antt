-- ===== src/Core/Reports.antt =====
-- packages/jam-core/src/impls/work-report-impl.ts: the fields of a work report that the core passes
-- on. The hash of a report, which is that of its encoding, is a parameter where it is used.
use tsjam.Prelude.{ℕ, List}
use tsjam.Core.Bytes.{Bytes}

-- `package_hash` is `avSpec.packageHash`, `prerequisites` is `context.prerequisites`, and `sr_lookup`
-- the keys of the segment root lookup.
pub record WorkReport : Type 0 where
  pub core : ℕ
  pub package_hash : Bytes
  pub authorizer_hash : Bytes
  pub prerequisites : List Bytes
  pub sr_lookup : List Bytes
