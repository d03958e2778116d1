-- ===== src/Bench/Adapter/Limits.antt =====
-- The limit that a message states in ticks, and the fills of the order that stands for it.
use babo_matching_engine.Prelude.{
  ℕ, ◌*◌, ◌/◌, ◌%◌, ◌<◌, ◌≡◌, ap, ◌≢◌, Bool, true, List, [], ◌∷◌, leb, ◌==◌, if◌then◌else◌, arith,
}
use babo_matching_engine.Order.{SimpleOrder}
use babo_matching_engine.Prelude.Int.{pos}
use babo_matching_engine.Prelude.Words.{u32_mod, mul32}
use babo_matching_engine.Bench.Adapter.Orders.{trade_of}
use babo_matching_engine.Book.Match.Fills.{Fill, AllWithin}

-- A buy pays at most its price, a sell gets at least its price.
abbrev pub within_ticks : (side_of price px : ℕ) → Bool
within_ticks side_of price px = if side_of == 0 then leb px price else leb price px

abbrev pub AllInTicks : (side_of price : ℕ) → List Fill → Type 0
AllInTicks side_of price [] = Unit {0}
AllInTicks side_of price (f ∷ fs) =
    (within_ticks side_of price f.price ≡ true) × AllInTicks side_of price fs

-- A price that is not the one of market orders is a limit.
pub AllWithin-AllInTicks :
    (o : SimpleOrder) (side_of price : ℕ) (fs : List Fill)
    → o.is_buy ≡ (side_of == 0)
    → o.price ≡ price
    → price ≢ 0
    → AllWithin o fs
    → AllInTicks side_of price fs
AllWithin-AllInTicks o side_of price [] b e ne h = tt
AllWithin-AllInTicks o side_of price (f ∷ fs) b e ne h =
    (ground (arith, b, e, ne, h.0), AllWithin-AllInTicks o side_of price fs b e ne h.1)

-- The price that is reported is the price of the trade when its value fits 32 bits.
trade_of-price :
    (seq taker : ℕ) (f : Fill)
    → 0 < f.qty
    → f.qty * f.price < u32_mod
    → (trade_of seq taker f).price_ticks ≡ pos f.price
unfolding mul32
trade_of-price seq taker f h k =
    let value : (f.qty * f.price) % u32_mod ≡ f.qty * f.price = omega (arith, k) in
    let back : (f.qty * f.price) / f.qty ≡ f.price = grind arith in ap pos (rw value back)

-- Every trade whose value fits is reported at its price.
abbrev pub AllPriced : (seq taker : ℕ) → List Fill → Type 0
AllPriced seq taker [] = Unit {0}
AllPriced seq taker (f ∷ fs) =
    (0 < f.qty → f.qty * f.price < u32_mod → (trade_of seq taker f).price_ticks ≡ pos f.price)
    × AllPriced seq taker fs

pub trade_of-AllPriced : (seq taker : ℕ) (fs : List Fill) → AllPriced seq taker fs
trade_of-AllPriced seq taker [] = tt
trade_of-AllPriced seq taker (f ∷ fs) =
    (trade_of-price seq taker f, trade_of-AllPriced seq taker fs)
