-- ===== src/Nat/Owners/Updates.antt =====
-- `Update` and `Release` keep the owners of the public addresses apart.
use nstance.Base.{
  String, ◌≡◌, ◌≢◌, refl, none, eq_iff, some, ok, inl, inr, arith, subst, Option-cases,
}
use nstance.Base.Dict.{get, put, delete, get-put_cases, get-delete, get-delete_cases}
use nstance.Nat.{Assignment, Assignments}
use nstance.Nat.Changes.{update_one, release}
use nstance.Nat.Owners.{OneOwner}

-- What `Update` may change of an assignment.
pub record KeepsOwnership (apply : Assignment → Assignment) : Type 0 where
  pub same_id : (a : Assignment) → (apply a).instance_id ≡ a.instance_id
  pub same_address : (a : Assignment) → (apply a).public_address ≡ a.public_address
  pub same_replaces : (a : Assignment) → (apply a).replaces ≡ a.replaces
  pub same_retiring : (a : Assignment) → (apply a).retiring ≡ a.retiring

put_updated-OneOwner :
    (id : String) (apply : Assignment → Assignment) (x : Assignment) (m : Assignments)
    → KeepsOwnership apply
    → OneOwner m
    → get m id ≡ some x
    → OneOwner (put m id (apply x))
put_updated-OneOwner id apply x m keep v held = record {
  keyed = λ k b g.
      ground (arith, get-put_cases m id (apply x) k b g, keep.same_id x, v.keyed k b, v.keyed id x);
  linked = λ k b p g ne f. ground (
    arith,
    get-put_cases m id (apply x) k b g,
    get-put_cases m id (apply x) b.replaces p f,
    keep.same_address x,
    keep.same_replaces x,
    keep.same_retiring x,
    v.linked k b p,
    v.linked k x p,
    v.linked k b x,
    v.linked k x x,
  );
  single = λ k j b c g f ne e. ground (
    arith,
    get-put_cases m id (apply x) k b g,
    get-put_cases m id (apply x) j c f,
    keep.same_replaces x,
    v.single k j b c,
    v.single k j x c,
    v.single k j b x,
  );
  exclusive = λ k j b c ip g f ob oc hb hc. ground (
    arith,
    get-put_cases m id (apply x) k b g,
    get-put_cases m id (apply x) j c f,
    keep.same_address x,
    keep.same_replaces x,
    keep.same_retiring x,
    v.exclusive k j b c ip,
    v.exclusive k j x c ip,
    v.exclusive k j b x ip,
  );
}

-- `Update` keeps one owner for each address, where the change that it applies keeps the instance, the
-- address, the predecessor and the retirement of an assignment.
pub update_one-OneOwner :
    (id : String) (apply : Assignment → Assignment) (m n : Assignments)
    → KeepsOwnership apply
    → OneOwner m
    → update_one id apply m ≡ ok (n, tt)
    → OneOwner n
unfolding update_one
update_one-OneOwner id apply m n keep v h = elim (Option-cases (get m id)) [
  | inl e ↦ ground (arith, e)
  | inr (x, e) ↦ subst OneOwner (ground (arith, e)) (put_updated-OneOwner id apply x m keep v e)
]

-- `Release` always succeeds: it takes the assignment of the instance away, keeps that of every other instance as
-- it is, and there is still one owner for each address.
pub release-OneOwner :
    (id : String) (m : Assignments)
    → OneOwner m
    → (n : Assignments) × (release id m ≡ ok (n, tt))
      × (get n id ≡ none)
      × ((k : String) → k ≢ id → get n k ≡ get m k)
      × OneOwner n
unfolding release
release-OneOwner id m v = (
  delete m id,
  refl,
  ground (arith, get-delete m id id, eq_iff id id),
  λ k ne. ground (arith, get-delete m id k, eq_iff id k),
  record {
    keyed = λ k b g. v.keyed k b (get-delete_cases m id k b g).1;
    linked = λ k b p g ne f.
        v.linked k b p (get-delete_cases m id k b g).1 ne (get-delete_cases m id b.replaces p f).1;
    single = λ k j b c g f.
        v.single k j b c (get-delete_cases m id k b g).1 (get-delete_cases m id j c f).1;
    exclusive = λ k j b c ip g f.
        v.exclusive k j b c ip (get-delete_cases m id k b g).1 (get-delete_cases m id j c f).1;
  },
)
