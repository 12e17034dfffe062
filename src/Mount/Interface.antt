-- ===== src/Mount/Interface.antt =====
-- mount/mount.go: what a mount says of itself, and the `Mount` interface over an open set of types.
use dagstore.Shared.{ℕ, String, Bool}
use dagstore.Error.{Result}

pub data Kind : Type 0 where
  local remote : Kind

pub record Info : Type 0 where
  pub kind : Kind
  pub access_sequential : Bool
  pub access_seek : Bool
  pub access_random : Bool

pub record Stat : Type 0 where
  pub exists : Bool
  pub size : ℕ
  pub ready : Bool

-- The parts of a `url.URL` that the mounts set and read.
pub record Url : Type 0 where
  pub scheme : String
  pub host : String
  pub raw_query : String

-- The methods of `Mount` that touch no outside resource, over a type `M` that holds the values of all
-- mount types. `type_of` is `reflect.TypeOf`, `deserialize template u` configures a copy of `template`.
pub record MountOps (M : Type 0) : Type 0 where
  pub type_of : M → String
  pub info : M → Info
  pub serialize : M → Url
  pub deserialize : M → Url → Result M
  pub url_text : Url → String
