-- ===== src/Tree/Nodes/Relocate.antt =====
-- `relocate_tail_to_head` on the chain of pin nodes.
use mathlib.Core.List.{append-nil, append_assoc, map-append}
use babo_matching_engine.Prelude.{
  ℕ, ◌≡◌, ◌≢◌, refl, sym, ◌∙◌, ap, subst, Bool, true, false, some, List, [], ◌∷◌, ◌++◌, upd,
  upd-same, upd-other, Distinct, if◌then◌else◌, arith,
}
use babo_matching_engine.Order.{SimpleOrder}
use babo_matching_engine.Pin
use babo_matching_engine.Pin.{PinNode, npos}
use babo_matching_engine.Pin.Segment.{Seg-cut}
use babo_matching_engine.Pin.Holds.{IsPin, orders}
use babo_matching_engine.Pin.Erase.{erase-IsPin}
use babo_matching_engine.Pin.Insert.{prepend-Inserts}
use babo_matching_engine.Tree.{Side, PriceLevel, loc, same_loc, order_at, write_pin, write_level}
use babo_matching_engine.Tree.Chain.{relocate_tail_to_head}
use babo_matching_engine.Tree.Nodes.{Block, IsChain, addrs, AllFilled}
use babo_matching_engine.Tree.Nodes.Links.{IsChain-cut}
use babo_matching_engine.Tree.Nodes.Erase.{erase-links, AllFilled-cut}
use babo_matching_engine.Tree.Nodes.Replace.{
  reslot, view, view-append, view-upd, apart, addrs-reslot, IsChain-reslot, view-reslot,
}

-- The chain is well formed, but the node `k`, behind the nodes `ks` and before the nodes `ls`, may
-- be empty.
pub record Open (N : ℕ) (s : Side) (ks : List Block) (k : Block) (ls : List Block) : Type 0 where
  pub chain : IsChain N s.pins 0 s.chain_head (ks ++ k ∷ ls) s.chain_tail 0
  pub distinct : Distinct (addrs (ks ++ k ∷ ls))
  pub filled_before : AllFilled ks
  pub filled_behind : AllFilled ls

-- The node in the middle.
pub node_at :
    (N : ℕ) (pins : ℕ → PinNode) (b c : ℕ) (ks : List Block) (k : Block) (ls : List Block) (z e : ℕ)
    → IsChain N pins b c (ks ++ k ∷ ls) z e
    → (k.addr ≢ 0)
      × IsPin N (pins k.addr) k.slots k.free
      × IsChain N pins k.addr (pins k.addr).next_node ls z e
node_at N pins b c ks k ls z e i =
    let (m, d, l, r) = IsChain-cut N pins b c ks (k ∷ ls) z e i in (r.1, r.3, r.4)

-- The last slot of the list is the tail.
pub tail_at :
    (N : ℕ) (p : PinNode) (xs : List ℕ) (t : ℕ) (fs : List ℕ)
    → IsPin N p (xs ++ t ∷ []) fs
    → p.tail ≡ t
tail_at N p xs t fs i =
    let (m, d, l, r) =
      Seg-cut p.links_next p.links_prev npos p.head xs (t ∷ []) p.tail npos i.chain in
    sym r.3.1

-- A write to a level under a test leaves the chain.
abbrev SameChain : Side → Side → Type 0
SameChain s t = (t.pins ≡ s.pins) × (t.chain_head ≡ s.chain_head) × (t.chain_tail ≡ s.chain_tail)

write_if-SameChain :
    (b : Bool) (s : Side) (p : ℕ) (l : PriceLevel)
    → SameChain s (if b then write_level s p l else s)
write_if-SameChain true s p l = (refl, refl, refl)
write_if-SameChain false s p l = (refl, refl, refl)

-- The two nodes that the hop writes.
abbrev moved_pins : Side → ℕ → ℕ → ℕ → ℕ → PinNode
moved_pins s src dst t =
    let pins = upd s.pins src (Pin.erase (s.pins src) t) in
    upd pins dst (Pin.prepend (pins dst) ((s.pins src).slots t)).1

write_ifs-SameChain :
    (b : Bool) (s : Side) (p : ℕ) (l : PriceLevel) (c : Bool) (q : ℕ) (m : PriceLevel)
    → SameChain s (let t = if b then write_level s p l else s in if c then write_level t q m else t)
write_ifs-SameChain b s p l c q m =
    let t = if b then write_level s p l else s in
    let h = write_if-SameChain b s p l in
    let k = write_if-SameChain c t q m in (k.0 ∙ h.0, k.1 ∙ h.1, k.2 ∙ h.2)

hop_pins :
    (s : Side) (src dst : ℕ)
    → SameChain
        (record s { pins = moved_pins s src dst (s.pins src).tail })
        (relocate_tail_to_head s src dst)
unfolding relocate_tail_to_head
hop_pins s src dst =
    let s_old = (s.pins src).tail in
    let old_loc = loc src s_old in
    let moved = order_at s old_loc in
    let s1 = write_pin s src (Pin.erase (s.pins src) s_old) in
    let (s_new, node) = Pin.prepend (s1.pins dst) moved in
    let at = loc dst s_new in
    let s2 = write_pin s1 dst node in
    let s3 = record s2 { order_index = upd s2.order_index (order_at s2 at).order_id (some at) } in
    let b = same_loc (s3.levels moved.level).tail old_loc in
    let l = record (s3.levels moved.level) { tail = at } in
    let s4 = if b then write_level s3 moved.level l else s3 in
    write_ifs-SameChain b s3 moved.level l (same_loc (s4.levels moved.level).head old_loc)
      moved.level (record (s4.levels moved.level) { head = at })

pub prepend-links :
    (n : PinNode) (o : SimpleOrder)
    → ((Pin.prepend n o).1.prev_node ≡ n.prev_node) × ((Pin.prepend n o).1.next_node ≡ n.next_node)
unfolding Pin.prepend Pin.alloc Pin.link_front
prepend-links n o = (refl, refl)

-- The list before and after the hop.
regroup {ℓ} :
    {A : Type ℓ}
    → (us vs : List A) (m : A) (xs ys : List A)
    → (us ++ (vs ++ [])) ++ (m ∷ (xs ++ ys)) ≡ (us ++ ((vs ++ m ∷ []) ++ [])) ++ (xs ++ ys)
regroup us vs m xs ys =
    rw
      (
        append-nil vs,
        append-nil (vs ++ m ∷ []),
        append_assoc us vs (m ∷ (xs ++ ys)),
        append_assoc us (vs ++ m ∷ []) (xs ++ ys),
        append_assoc vs (m ∷ []) (xs ++ ys),
      )
      refl

-- The same list, from what each write makes of its node.
hop_view :
    (pins : ℕ → PinNode) (n m : PinNode) (ks : List Block) (k l : Block) (ls : List Block)
    (xs : List ℕ) (t f : ℕ) (fs : List ℕ)
    → Distinct (addrs (ks ++ (k ∷ l ∷ ls)))
    → k.slots ≡ xs ++ t ∷ []
    → orders n xs ≡ orders (pins k.addr) xs
    → orders m (f ∷ l.slots) ≡ (pins k.addr).slots t ∷ orders (upd pins k.addr n l.addr) l.slots
    → view (upd pins k.addr n) (ks ++ reslot k xs fs ∷ [])
        ++ (orders m (f ∷ l.slots) ++ view (upd pins k.addr n) ls)
      ≡ view pins ((ks ++ k ∷ []) ++ l ∷ ls)
hop_view pins n m ks k l ls xs t f fs d e g h =
    let (x, y) = apart ks k (l ∷ ls) d in
    let same : upd pins k.addr n l.addr ≡ pins l.addr =
      upd-other pins k.addr n l.addr (ground (arith, y)) in
    let left : view (upd pins k.addr n) (ks ++ reslot k xs fs ∷ [])
        ≡ view pins ks ++ (orders (pins k.addr) xs ++ []) =
      view-append (upd pins k.addr n) ks (reslot k xs fs ∷ [])
      ∙ rw (view-upd pins k.addr n ks x, upd-same pins k.addr n, g) refl in
    let right : view pins ((ks ++ k ∷ []) ++ l ∷ ls)
        ≡ (view pins ks ++ ((orders (pins k.addr) xs ++ (pins k.addr).slots t ∷ []) ++ []))
          ++ (orders (pins l.addr) l.slots ++ view pins ls) =
      view-append pins (ks ++ k ∷ []) (l ∷ ls)
      ∙ rw (view-append pins ks (k ∷ []), e, map-append (pins k.addr).slots xs (t ∷ [])) refl in
    let behind = view-upd pins k.addr n ls (ground (arith, y)) in
    let front = view pins ks ++ (orders (pins k.addr) xs ++ []) in
    let mv = (pins k.addr).slots t in
    ap (λ us. us ++ (orders m (f ∷ l.slots) ++ view (upd pins k.addr n) ls)) left
    ∙ ap (λ us. front ++ (us ++ view (upd pins k.addr n) ls)) h
    ∙ ap (λ p. front ++ (mv ∷ (orders p l.slots ++ view (upd pins k.addr n) ls))) same
    ∙ ap (λ us. front ++ (mv ∷ (orders (pins l.addr) l.slots ++ us))) behind
    ∙ regroup (view pins ks) (orders (pins k.addr) xs) mv (orders (pins l.addr) l.slots)
        (view pins ls)
    ∙ sym right

-- The tail of the full node becomes the head of the node behind it: the orders keep their places
-- in the list.
pub relocate_tail_to_head-Open :
    (N : ℕ) (s : Side) (ks : List Block) (k l : Block) (ls : List Block) (xs : List ℕ) (t f : ℕ)
    (fs : List ℕ)
    → Open N s (ks ++ k ∷ []) l ls
    → k.slots ≡ xs ++ t ∷ []
    → l.free ≡ f ∷ fs
    → let u = relocate_tail_to_head s k.addr l.addr in
      let k2 = reslot k xs (t ∷ k.free) in
      let l2 = reslot l (f ∷ l.slots) fs in
      Open N u ks k2 (l2 ∷ ls)
      × (view u.pins (ks ++ k2 ∷ l2 ∷ ls) ≡ view s.pins ((ks ++ k ∷ []) ++ l ∷ ls))
relocate_tail_to_head-Open N s ks k l ls xs t f fs o e g =
    let a = k.addr in
    let b = l.addr in
    let split : (ks ++ k ∷ []) ++ l ∷ ls ≡ ks ++ (k ∷ l ∷ ls) = append_assoc ks (k ∷ []) (l ∷ ls) in
    let chain = subst (λ bs. IsChain N s.pins 0 s.chain_head bs s.chain_tail 0) split o.chain in
    let distinct = subst (λ bs. Distinct (addrs bs)) split o.distinct in
    let (_, kpin, _) = node_at N s.pins 0 s.chain_head ks k (l ∷ ls) s.chain_tail 0 chain in
    let kpin = subst (λ zs. IsPin N (s.pins a) zs k.free) e kpin in
    let tail = tail_at N (s.pins a) xs t k.free kpin in
    let n = Pin.erase (s.pins a) t in
    let pins = upd s.pins a n in
    let k2 = reslot k xs (t ∷ k.free) in
    let l2 = reslot l (f ∷ l.slots) fs in
    let shrunk = erase-IsPin (s.pins a) t xs [] k.free kpin in
    let shrunk_pin = subst (λ zs. IsPin N n zs (t ∷ k.free)) (append-nil xs) shrunk.0 in
    let links = erase-links (s.pins a) t in
    let chain1 =
      IsChain-reslot N s.pins n 0 s.chain_head ks k (l ∷ ls) s.chain_tail 0 xs (t ∷ k.free) chain
        distinct links.0 links.1 shrunk_pin in
    let distinct1 = subst Distinct (sym (addrs-reslot ks k (l ∷ ls) xs (t ∷ k.free))) distinct in
    let split1 : (ks ++ k2 ∷ []) ++ l ∷ ls ≡ ks ++ (k2 ∷ l ∷ ls) =
      append_assoc ks (k2 ∷ []) (l ∷ ls) in
    let split2 : (ks ++ k2 ∷ []) ++ l2 ∷ ls ≡ ks ++ (k2 ∷ l2 ∷ ls) =
      append_assoc ks (k2 ∷ []) (l2 ∷ ls) in
    let chain2 =
      subst (λ bs. IsChain N pins 0 s.chain_head bs s.chain_tail 0) (sym split1) chain1 in
    let distinct2 = subst (λ bs. Distinct (addrs bs)) (sym split1) distinct1 in
    let (_, lpin, _) = node_at N pins 0 s.chain_head (ks ++ k2 ∷ []) l ls s.chain_tail 0 chain2 in
    let moved = (s.pins a).slots t in
    let put =
      prepend-Inserts (pins b) moved f l.slots fs (subst (IsPin N (pins b) l.slots) g lpin) in
    let m = (Pin.prepend (pins b) moved).1 in
    let ends = prepend-links (pins b) moved in
    let chain3 =
      IsChain-reslot N pins m 0 s.chain_head (ks ++ k2 ∷ []) l ls s.chain_tail 0 (f ∷ l.slots) fs
        chain2 distinct2 ends.0 ends.1 put.is_pin in
    let distinct3 =
      subst Distinct (sym (addrs-reslot (ks ++ k2 ∷ []) l ls (f ∷ l.slots) fs)) distinct2 in
    let h =
      subst (λ c. SameChain (record s { pins = moved_pins s a b c }) (relocate_tail_to_head s a b))
        tail (hop_pins s a b) in
    (
      record {
        chain =
            rw (h.0, h.1, h.2)
              (subst (λ bs. IsChain N (upd pins b m) 0 s.chain_head bs s.chain_tail 0) split2
                chain3);
        distinct = subst (λ bs. Distinct (addrs bs)) split2 distinct3;
        filled_before = (AllFilled-cut ks (k ∷ []) o.filled_before).0;
        filled_behind = ((λ e. absurd cc), o.filled_behind);
      },
      ap (λ p. view p (ks ++ k2 ∷ l2 ∷ ls)) h.0
          ∙ ap (view (upd pins b m)) (sym split2)
          ∙ view-reslot pins m (ks ++ k2 ∷ []) l ls (f ∷ l.slots) fs distinct2
          ∙ hop_view s.pins n m ks k l ls xs t f (t ∷ k.free) distinct e
              (subst (λ zs. orders n zs ≡ orders (s.pins a) xs) (append-nil xs)
                (shrunk.1 ∙ append-nil (orders (s.pins a) xs)))
              put.view,
    )
