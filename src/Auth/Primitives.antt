-- ===== src/Auth/Primitives.antt =====
-- What auth.service.ts, totp.service.ts and the MFA services take from argon2, node's crypto,
-- @nestjs/jwt and otplib: functions that the model is given.
use omnia_note.Prelude.{ℕ, String, Bool, Option}
use omnia_note.World.{Uuid, Token, Digest, Time}

pub record Crypto : Type 0 where
  -- argon2.hash (its salt drawn at random) and argon2.verify
  pub hash : ℕ → String → Digest
  pub verify : Digest → String → Bool
  -- createHash("sha256")
  pub sha256 : Token → Digest
  -- jwt.signAsync of `sub` and `accountId`, at a time
  pub sign : Uuid → Uuid → Time → Token
  -- EncryptionService, with the random iv; `decrypt` throws on a payload that was tampered with
  pub encrypt : ℕ → Token → Token
  pub decrypt : Token → Option Token
  -- authenticator.verify of a code and a secret, at a time
  pub totp_verify : String → Token → Time → Bool
  -- the printed form of a random token, base64url
  pub base64url : Token → String
