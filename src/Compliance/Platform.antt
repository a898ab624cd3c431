-- ===== src/Compliance/Platform.antt =====
-- What the compliance code takes from `hashlib`, `json`, `uuid`, `os` and `cryptography`: a
-- parameter of the model. Each object that draws identifiers counts what it has drawn.
use ai_voice.Prelude.{ℕ, String, ◌≡◌, Option, some}
use ai_voice.Prelude.Dict.{Dict}
use ai_voice.Core.Types.{Value}

pub record Platform : Type 0 where
  -- hashlib.sha256(s.encode()).hexdigest()
  pub sha256 : String → String
  -- json.dumps({"tenant_id": …, "kind": …, "payload": …}, sort_keys=True, default=str)
  pub dumps : (tenant_id kind : String) → Dict String Value → String
  -- str(uuid4()), uuid4().hex[:8] and os.urandom(12) at the n-th draw
  pub uuid4 : ℕ → String
  pub token_hex : ℕ → String
  pub urandom : ℕ → String
  -- AESGCM(key).encrypt(nonce, value, None), and decrypt, which raises on a bad tag
  pub encrypt : (key nonce value : String) → String
  pub decrypt : (key nonce ciphertext : String) → Option String

-- SHA-256 shows no two texts with one digest.
pub record IsCollisionFree (p : Platform) : Type 0 where
  pub sha256_inj : (a b : String) → p.sha256 a ≡ p.sha256 b → a ≡ b

-- AES-GCM decrypts what it encrypted under the same key and nonce.
pub record IsReversible (p : Platform) : Type 0 where
  pub decrypt-encrypt :
      (key nonce value : String) → p.decrypt key nonce (p.encrypt key nonce value) ≡ some value
