-- ===== src/Detection/Number.antt =====
-- The floating-point numbers of the score, as the operations the code uses with the laws it relies on.
-- `lit n` is the literal n / 100. The laws hold of Python's floats where no operation overflows: each
-- of them only says that a correctly rounded operation keeps an order.
use egreen_quanta_tes.Base.{ℕ, ◌≡◌, ◌≤◌, Bool, true, if◌then◌else◌}

pub record Numbers : Type 1 where
  pub Float : Type 0
  pub lit : ℕ → Float
  pub add : Float → Float → Float
  pub sub : Float → Float → Float
  pub mul : Float → Float → Float
  pub div : Float → Float → Float
  pub round : Float → ℕ → Float
  pub le : Float → Float → Bool

module _ (n : Numbers) where
  abbrev pub null : n.Float
  null = n.lit 0

  abbrev pub one : n.Float
  one = n.lit 100

  abbrev pub hundred : n.Float
  hundred = n.lit 10000

  -- `min(a, b)`
  abbrev pub min : n.Float → n.Float → n.Float
  min a b = if n.le a b then a else b

  pub record Laws : Type 0 where
    pub le_refl : (a : n.Float) → n.le a a ≡ true
    pub le_trans : (a b c : n.Float) → n.le a b ≡ true → n.le b c ≡ true → n.le a c ≡ true
    pub le_total : (a b : n.Float) → n.le a b ≡ Bool.false → n.le b a ≡ true
    pub le_lit : (j k : ℕ) → j ≤ k → n.le (n.lit j) (n.lit k) ≡ true
    pub add_nonneg :
        (a b : n.Float) → n.le null a ≡ true → n.le null b ≡ true → n.le null (n.add a b) ≡ true
    pub mul_nonneg :
        (a b : n.Float) → n.le null a ≡ true → n.le null b ≡ true → n.le null (n.mul a b) ≡ true
    pub mul_mono :
        (a b c : n.Float)
        → n.le null c ≡ true
        → n.le a b ≡ true
        → n.le (n.mul a c) (n.mul b c) ≡ true
    pub mul_le :
        (a b : n.Float) → n.le null a ≡ true → n.le b one ≡ true → n.le (n.mul a b) a ≡ true
    pub percent_le : (a : n.Float) → n.le a one ≡ true → n.le (n.mul a hundred) hundred ≡ true
    pub sub_nonneg : (a : n.Float) → n.le a one ≡ true → n.le null (n.sub one a) ≡ true
    pub sub_le : (a : n.Float) → n.le null a ≡ true → n.le (n.sub one a) one ≡ true
    pub sub_anti : (a b : n.Float) → n.le a b ≡ true → n.le (n.sub one b) (n.sub one a) ≡ true
    pub div_nonneg : (a : n.Float) → n.le null a ≡ true → n.le null (n.div a hundred) ≡ true
    pub round_mono : (a b : n.Float) → n.le a b ≡ true → n.le (n.round a 1) (n.round b 1) ≡ true
    pub round_null : n.le null (n.round null 1) ≡ true
    pub round_hundred : n.le (n.round hundred 1) hundred ≡ true
