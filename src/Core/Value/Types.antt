-- ===== src/Core/Value/Types.antt =====
-- What `ValueType::accepts` admits.
use borg_core.Prelude.{
  Bool, true, false, Bool-cases, ◌||◌, ◌≡◌, ◌↔◌, ◌⊎◌, inl, inr, ℕ, refl, ap, ◌∙◌,
}
use borg_core.Core.Pid.{PidKind, Pid, kind, PidKind-discrete}
use borg_core.Core.Value.{Value, ref, tombstone, Signed, ValueType, PidKind-same, accepts}

-- A reference to a pid of one of two kinds.
abbrev pub IsRefTo : PidKind → PidKind → Value → Type 0
IsRefTo a b v = (p : Pid) × (v ≡ ref p) × ((kind p ≡ a) ⊎ (kind p ≡ b))

abbrev pub IsInt : Value → Type 0
IsInt v = (n : Signed) × (v ≡ Value.int n)

abbrev pub IsDouble : Value → Type 0
IsDouble v = (bits : ℕ) × (v ≡ Value.double bits)

-- The values of each type, tombstones apart. The type of an object or of a list's elements is not
-- looked at.
abbrev pub Fits : ValueType → Value → Type 0
Fits ValueType.any v = Unit
Fits ValueType.int v = IsInt v
Fits ValueType.bool v = (b : Bool) × (v ≡ Value.bool b)
Fits ValueType.double v = IsDouble v
Fits ValueType.string v = IsRefTo PidKind.string PidKind.string v
Fits ValueType.binary v = IsRefTo PidKind.binary PidKind.binary v
Fits ValueType.big_int v = IsRefTo PidKind.big_int PidKind.big_int v
Fits (ValueType.object name) v = IsRefTo PidKind.object PidKind.any_object v
Fits (ValueType.list element) v = IsRefTo PidKind.list PidKind.any_array v
Fits ValueType.any_object v = IsRefTo PidKind.object PidKind.any_object v
Fits ValueType.any_array v = IsRefTo PidKind.list PidKind.any_array v
Fits ValueType.any_number v = IsInt v ⊎ (IsDouble v ⊎ IsRefTo PidKind.big_int PidKind.big_int v)

abbrev pub HasType : ValueType → Value → Type 0
HasType ty v = (v ≡ tombstone) ⊎ Fits ty v

PidKind-same_iff : (a b : PidKind) → (PidKind-same a b ≡ true) ↔ (a ≡ b)
unfolding PidKind-same
PidKind-same_iff a b =
    elim (PidKind-discrete a b)
      as (λ d. (elim d as (λ _. Bool) [ yes _ ↦ true | no _ ↦ false ] ≡ true) ↔ (a ≡ b)) [
        | yes e ↦ (λ h. e, λ h. refl)
        | no n ↦ (λ h. cc (h), λ h. absurd (n h))
      ]

either :
    (p : Pid) (a b : PidKind)
    → (PidKind-same (kind p) a || PidKind-same (kind p) b) ≡ true
    → IsRefTo a b (ref p)
either p a b h = elim (Bool-cases (PidKind-same (kind p) a)) [
  | inl t ↦ (p, refl, inl ((PidKind-same_iff (kind p) a).0 t))
  | inr f ↦ (p, refl, inr ((PidKind-same_iff (kind p) b).0 (rw f at h)))
]

one : (p : Pid) (a : PidKind) → PidKind-same (kind p) a ≡ true → IsRefTo a a (ref p)
one p a h = (p, refl, inl ((PidKind-same_iff (kind p) a).0 h))

accepted_either :
    (p : Pid) (a b : PidKind)
    → (kind p ≡ a) ⊎ (kind p ≡ b)
    → (PidKind-same (kind p) a || PidKind-same (kind p) b) ≡ true
accepted_either p a b (inl e) = rw ((PidKind-same_iff (kind p) a).1 e) refl
accepted_either p a b (inr e) = elim (Bool-cases (PidKind-same (kind p) a)) [
  | inl t ↦ rw t refl
  | inr f ↦ rw f ((PidKind-same_iff (kind p) b).1 e)
]

accepted_one :
    (p : Pid) (a : PidKind) → (kind p ≡ a) ⊎ (kind p ≡ a) → PidKind-same (kind p) a ≡ true
accepted_one p a (inl e) = (PidKind-same_iff (kind p) a).1 e
accepted_one p a (inr e) = (PidKind-same_iff (kind p) a).1 e

int-HasType :
    (ty : ValueType) (n : Signed) → accepts ty (Value.int n) ≡ true → HasType ty (Value.int n)
unfolding accepts
int-HasType ValueType.any n h = inr tt
int-HasType ValueType.int n h = inr (n, refl)
int-HasType ValueType.bool n h = cc (h)
int-HasType ValueType.double n h = cc (h)
int-HasType ValueType.string n h = cc (h)
int-HasType ValueType.binary n h = cc (h)
int-HasType ValueType.big_int n h = cc (h)
int-HasType (ValueType.object name) n h = cc (h)
int-HasType (ValueType.list element) n h = cc (h)
int-HasType ValueType.any_object n h = cc (h)
int-HasType ValueType.any_array n h = cc (h)
int-HasType ValueType.any_number n h = inr (inl (n, refl))

bool-HasType :
    (ty : ValueType) (b : Bool) → accepts ty (Value.bool b) ≡ true → HasType ty (Value.bool b)
unfolding accepts
bool-HasType ValueType.any b h = inr tt
bool-HasType ValueType.int b h = cc (h)
bool-HasType ValueType.bool b h = inr (b, refl)
bool-HasType ValueType.double b h = cc (h)
bool-HasType ValueType.string b h = cc (h)
bool-HasType ValueType.binary b h = cc (h)
bool-HasType ValueType.big_int b h = cc (h)
bool-HasType (ValueType.object name) b h = cc (h)
bool-HasType (ValueType.list element) b h = cc (h)
bool-HasType ValueType.any_object b h = cc (h)
bool-HasType ValueType.any_array b h = cc (h)
bool-HasType ValueType.any_number b h = cc (h)

double-HasType :
    (ty : ValueType) (bits : ℕ)
    → accepts ty (Value.double bits) ≡ true
    → HasType ty (Value.double bits)
unfolding accepts
double-HasType ValueType.any bits h = inr tt
double-HasType ValueType.int bits h = cc (h)
double-HasType ValueType.bool bits h = cc (h)
double-HasType ValueType.double bits h = inr (bits, refl)
double-HasType ValueType.string bits h = cc (h)
double-HasType ValueType.binary bits h = cc (h)
double-HasType ValueType.big_int bits h = cc (h)
double-HasType (ValueType.object name) bits h = cc (h)
double-HasType (ValueType.list element) bits h = cc (h)
double-HasType ValueType.any_object bits h = cc (h)
double-HasType ValueType.any_array bits h = cc (h)
double-HasType ValueType.any_number bits h = inr (inr (inl (bits, refl)))

ref-HasType : (ty : ValueType) (p : Pid) → accepts ty (ref p) ≡ true → HasType ty (ref p)
unfolding accepts
ref-HasType ValueType.any p h = inr tt
ref-HasType ValueType.int p h = cc (h)
ref-HasType ValueType.bool p h = cc (h)
ref-HasType ValueType.double p h = cc (h)
ref-HasType ValueType.string p h = inr (one p PidKind.string h)
ref-HasType ValueType.binary p h = inr (one p PidKind.binary h)
ref-HasType ValueType.big_int p h = inr (one p PidKind.big_int h)
ref-HasType (ValueType.object name) p h = inr (either p PidKind.object PidKind.any_object h)
ref-HasType (ValueType.list element) p h = inr (either p PidKind.list PidKind.any_array h)
ref-HasType ValueType.any_object p h = inr (either p PidKind.object PidKind.any_object h)
ref-HasType ValueType.any_array p h = inr (either p PidKind.list PidKind.any_array h)
ref-HasType ValueType.any_number p h = inr (inr (inr (one p PidKind.big_int h)))

accepts-HasType : (ty : ValueType) (v : Value) → accepts ty v ≡ true → HasType ty v
accepts-HasType ty (Value.int n) h = int-HasType ty n h
accepts-HasType ty (Value.bool b) h = bool-HasType ty b h
accepts-HasType ty (Value.double bits) h = double-HasType ty bits h
accepts-HasType ty (ref p) h = ref-HasType ty p h
accepts-HasType ty tombstone h = inl refl

accepts-any : (v : Value) → accepts ValueType.any v ≡ true
unfolding accepts
accepts-any (Value.int n) = refl
accepts-any (Value.bool b) = refl
accepts-any (Value.double bits) = refl
accepts-any (ref p) = refl
accepts-any tombstone = refl

Fits-accepts : (ty : ValueType) (v : Value) → Fits ty v → accepts ty v ≡ true
unfolding accepts
Fits-accepts ValueType.any v fits = accepts-any v
Fits-accepts ValueType.int v (n, e) = ap (accepts ValueType.int) e
Fits-accepts ValueType.bool v (b, e) = ap (accepts ValueType.bool) e
Fits-accepts ValueType.double v (bits, e) = ap (accepts ValueType.double) e
Fits-accepts ValueType.string v (p, e, k) =
    ap (accepts ValueType.string) e ∙ accepted_one p PidKind.string k
Fits-accepts ValueType.binary v (p, e, k) =
    ap (accepts ValueType.binary) e ∙ accepted_one p PidKind.binary k
Fits-accepts ValueType.big_int v (p, e, k) =
    ap (accepts ValueType.big_int) e ∙ accepted_one p PidKind.big_int k
Fits-accepts (ValueType.object name) v (p, e, k) =
    ap (accepts (ValueType.object name)) e ∙ accepted_either p PidKind.object PidKind.any_object k
Fits-accepts (ValueType.list element) v (p, e, k) =
    ap (accepts (ValueType.list element)) e ∙ accepted_either p PidKind.list PidKind.any_array k
Fits-accepts ValueType.any_object v (p, e, k) =
    ap (accepts ValueType.any_object) e ∙ accepted_either p PidKind.object PidKind.any_object k
Fits-accepts ValueType.any_array v (p, e, k) =
    ap (accepts ValueType.any_array) e ∙ accepted_either p PidKind.list PidKind.any_array k
Fits-accepts ValueType.any_number v (inl (n, e)) = ap (accepts ValueType.any_number) e
Fits-accepts ValueType.any_number v (inr (inl (bits, e))) = ap (accepts ValueType.any_number) e
Fits-accepts ValueType.any_number v (inr (inr (p, e, k))) =
    ap (accepts ValueType.any_number) e ∙ accepted_one p PidKind.big_int k

pub accepts_tombstone : (ty : ValueType) → accepts ty tombstone ≡ true
unfolding accepts
accepts_tombstone ValueType.any = refl
accepts_tombstone ValueType.int = refl
accepts_tombstone ValueType.bool = refl
accepts_tombstone ValueType.double = refl
accepts_tombstone ValueType.string = refl
accepts_tombstone ValueType.binary = refl
accepts_tombstone ValueType.big_int = refl
accepts_tombstone (ValueType.object name) = refl
accepts_tombstone (ValueType.list element) = refl
accepts_tombstone ValueType.any_object = refl
accepts_tombstone ValueType.any_array = refl
accepts_tombstone ValueType.any_number = refl

pub accepts_iff : (ty : ValueType) (v : Value) → (accepts ty v ≡ true) ↔ HasType ty v
accepts_iff ty v = (
  accepts-HasType ty v,
  elim [ inl e ↦ ap (accepts ty) e ∙ accepts_tombstone ty | inr fits ↦ Fits-accepts ty v fits ],
)
