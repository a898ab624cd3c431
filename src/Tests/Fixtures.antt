-- ===== src/Tests/Fixtures.antt =====
-- A tenant, its messages and calls, and a platform in which every text is its own digest and its
-- own ciphertext.
use ai_voice.Prelude.Floats.{Floats}
use ai_voice.Prelude.{ℕ, ◌-◌, ◌*◌, ◌/◌, leb, ltb, ◌+◌, refl, String, none, some, [], ◌∷◌}
use ai_voice.Prelude.Text.{append, str_int}
use ai_voice.Core.Types.{TenantContext, Locale, Message, Role, DataClass, ToolCall, RiskTier}
use ai_voice.Core.Flow.{FlowRef}
use ai_voice.Compliance.Platform.{Platform, IsCollisionFree, IsReversible}
use ai_voice.Compliance.Chain.{Envelope, no_metadata}
use ai_voice.Compliance.Audit.{empty_store}
use ai_voice.Compliance.Pii.{TokenVault, FindIter}
use ai_voice.Gateway.Defs.{GatewayState}

abbrev pub plain : Platform
plain = record {
  sha256 = λ s. s;
  dumps = λ tenant_id kind payload. append tenant_id (append "/" kind);
  uuid4 = λ n. str_int n;
  token_hex = λ n. str_int (10000000 + n);
  urandom = λ n. str_int n;
  encrypt = λ key nonce value. value;
  decrypt = λ key nonce ciphertext. some ciphertext;
}

abbrev pub plain_safe : IsCollisionFree plain
plain_safe = record { sha256_inj = λ a b h. h }

abbrev pub plain_reversible : IsReversible plain
plain_reversible = record { decrypt-encrypt = λ key nonce value. refl }

abbrev pub clinic : TenantContext
clinic = record {
  tenant_id = "clinic";
  vertical = "dental";
  locale = Locale.en_in;
  data_residency = "in";
  consent_scope = "service" ∷ [];
  trace_id = "t1";
}

abbrev pub agency : TenantContext
agency = record clinic { tenant_id = "agency"; vertical = "realestate" }

abbrev pub hello : Message
hello = record {
  role = Role.user;
  content = "hello";
  name = none;
  data_class = DataClass.personal;
  metadata = [];
}

abbrev pub hello_envelope : Envelope
hello_envelope = record { tenant = clinic; message = hello; metadata = no_metadata }

abbrev pub flow : FlowRef
flow = record {
  flow_id = "f";
  name = "intake";
  version = "1";
  checksum = "c";
  lint_report_id = "l";
}

abbrev pub call_of : String → RiskTier → ToolCall
call_of tool_name tier = record {
  call_id = "c1";
  tool_name = tool_name;
  arguments = [];
  risk_tier = tier;
}

abbrev pub empty_vault : TokenVault
empty_vault = record { key = "k"; store = []; drawn = 0 }

abbrev pub finds_nothing : FindIter
finds_nothing = λ pattern s. []

abbrev pub idle : GatewayState
idle = record {
  monotonic = 0;
  hour = 10;
  vault = empty_vault;
  counts = [];
  audit = empty_store;
  runs = [];
  runs_drawn = 0;
}

-- Whole numbers in the place of floating-point ones.
abbrev pub whole : Floats ℕ
whole = record {
  of_nat = λ n. n;
  add = λ a b. a + b;
  sub = λ a b. a - b;
  mul = λ a b. a * b;
  div = λ a b. a / b;
  geq = λ a b. leb b a;
  gtr = λ a b. ltb b a;
  leq = leb;
}
