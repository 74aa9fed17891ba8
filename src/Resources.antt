-- ===== src/Resources.antt =====
-- clusterman/util.py: the resource vectors. A float is an integer count of thousandths.
use clusterman.Base.{Bool, ◌&&◌, Option, none, some, ℤ, pos, ◌+ℤ◌, ◌-ℤ◌, ltb_ℤ, leb_ℤ}

pub record ClustermanResources : Type 0 where
  pub cpus : ℤ
  pub mem : ℤ
  pub disk : ℤ
  pub gpus : ℤ

abbrev pub no_resources : ClustermanResources
no_resources = record { cpus = pos 0; mem = pos 0; disk = pos 0; gpus = pos 0 }

unfoldable pub sub : ClustermanResources → ClustermanResources → ClustermanResources
sub a b = record {
  cpus = a.cpus -ℤ b.cpus;
  mem = a.mem -ℤ b.mem;
  disk = a.disk -ℤ b.disk;
  gpus = a.gpus -ℤ b.gpus;
}

unfoldable pub lt : ClustermanResources → ClustermanResources → Bool
lt a b = ltb_ℤ a.cpus b.cpus && ltb_ℤ a.mem b.mem && ltb_ℤ a.disk b.disk && ltb_ℤ a.gpus b.gpus

unfoldable pub le : ClustermanResources → ClustermanResources → Bool
le a b = leb_ℤ a.cpus b.cpus && leb_ℤ a.mem b.mem && leb_ℤ a.disk b.disk && leb_ℤ a.gpus b.gpus

pub record SignalResourceRequest : Type 0 where
  pub cpus : Option ℤ
  pub mem : Option ℤ
  pub disk : Option ℤ
  pub gpus : Option ℤ

unfoldable pub add_maybe_none : Option ℤ → Option ℤ → Option ℤ
add_maybe_none none none = none
add_maybe_none none (some b) = some b
add_maybe_none (some a) none = some a
add_maybe_none (some a) (some b) = some (a +ℤ b)

unfoldable pub add : SignalResourceRequest → SignalResourceRequest → SignalResourceRequest
unfolding add_maybe_none
add a b = record {
  cpus = add_maybe_none a.cpus b.cpus;
  mem = add_maybe_none a.mem b.mem;
  disk = add_maybe_none a.disk b.disk;
  gpus = add_maybe_none a.gpus b.gpus;
}
