-- ===== src/Reconstruction/Hashing.antt =====
-- What the pipeline takes from `hashlib` and `uuid`: digests of joined texts. The parts of an
-- f-string or of a separator-joined text are kept apart instead of being printed.
use lzd.Common.{ℕ, ◌+◌, ◌*◌, zero, suc, String, List, [], ◌∷◌}
use lzd.Reconstruction.Candidate.{Reason}

-- A part of a hashed text.
pub data Part : Type 0 where
  text : String → Part
  number : ℕ → Part
  reason : Reason → Part

pub record Hashing : Type 0 where
  -- the bytes of `hashlib.sha256("\x1f".join(parts).encode()).digest()`
  pub sha256 : List Part → List ℕ
  -- `str(uuid.uuid5(namespace, ":".join(parts)))`
  pub uuid5 : ℕ → List Part → String

-- `int.from_bytes(digest[:n], "big")`, on top of the bytes read so far
unfoldable pub from_bytes : ℕ → ℕ → List ℕ → ℕ
from_bytes zero acc bytes = acc
from_bytes (suc n) acc [] = acc
from_bytes (suc n) acc (b ∷ bytes) = from_bytes n (acc * 256 + b) bytes
