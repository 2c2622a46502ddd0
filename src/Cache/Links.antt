-- ===== src/Cache/Links.antt =====
-- The list of cache entries by last use, fs/src/cache.c: the `prev` and `next` pointers of the
-- entries and the two ends. A pointer into `cache_arr` is the entry's index, and `NULL` is `none`.
use cs2310_prj.Base.{ℕ, ◌≤◌, ◌<◌, ◌≡◌, refl, Option, none, some, arith, ◌==◌, if◌then◌else◌, ◌+◌}

-- A write to one place of an array.
abbrev pub update {ℓ} : {A : Type ℓ} → (ℕ → A) → ℕ → A → ℕ → A
update f i v j = if j == i then v else f j

pub record Lru : Type 0 where
  pub prev : ℕ → Option ℕ
  pub next : ℕ → Option ℕ
  pub head : Option ℕ
  pub tail : Option ℕ

abbrev pub unlinked : Lru → ℕ → Lru
unlinked l e = record l { prev = update l.prev e none; next = update l.next e none }

-- The first statement of `detach`, on the value of `e->prev`.
unfoldable pub bypass_prev : Option ℕ → Lru → ℕ → Lru
bypass_prev none l e = record l { head = l.next e }
bypass_prev (some p) l e = record l { next = update l.next p (l.next e) }

-- The second, on the value of `e->next` after the first.
unfoldable pub bypass_next : Option ℕ → Lru → ℕ → Lru
bypass_next none l e = record l { tail = l.prev e }
bypass_next (some n) l e = record l { prev = update l.prev n (l.prev e) }

unfoldable pub detach : Lru → ℕ → Lru
unfolding bypass_prev bypass_next
detach l e =
    let a = bypass_prev (l.prev e) l e in let b = bypass_next (a.next e) a e in unlinked b e

-- `lru_tail->next = e`, if there is a tail.
unfoldable pub link_tail : Option ℕ → Lru → ℕ → Lru
link_tail none l e = l
link_tail (some t) l e = record l { next = update l.next t (some e) }

abbrev pub or_else {ℓ} : {A : Type ℓ} → Option A → A → Option A
or_else none a = some a
or_else (some b) a = some b

unfoldable pub attach_tail : Lru → ℕ → Lru
unfolding link_tail
attach_tail l e =
    let a = record l { prev = update l.prev e l.tail; next = update l.next e none } in
    let b = link_tail a.tail a e in record b { tail = some e; head = or_else b.head e }

-- A pointer that is `NULL` or leads to one of the first `n` entries.
abbrev pub Within : ℕ → Option ℕ → Type 0
Within n none = Unit {0}
Within n (some p) = p < n

pub record InBounds (n : ℕ) (l : Lru) : Type 0 where
  pub prevs : (i : ℕ) → i < n → Within n (l.prev i)
  pub nexts : (i : ℕ) → i < n → Within n (l.next i)
  pub head : Within n l.head
  pub tail : Within n l.tail

-- The head leads to an entry.
abbrev pub Headed : ℕ → Lru → Type 0
Headed n l = (h : ℕ) × (h < n) × (l.head ≡ some h)

module _ (n : ℕ) (l : Lru) (e : ℕ) (v : InBounds n l) (here : e < n) where
  bypass_prev-InBounds : (o : Option ℕ) → Within n o → InBounds n (bypass_prev o l e)
  unfolding bypass_prev
  bypass_prev-InBounds none w = record {
    prevs = v.prevs;
    nexts = v.nexts;
    head = v.nexts e here;
    tail = v.tail;
  }
  bypass_prev-InBounds (some p) w = record {
    prevs = v.prevs;
    nexts = λ i h. ground (arith, v.nexts i h, v.nexts e here);
    head = v.head;
    tail = v.tail;
  }

  bypass_next-InBounds : (o : Option ℕ) → Within n o → InBounds n (bypass_next o l e)
  unfolding bypass_next
  bypass_next-InBounds none w = record {
    prevs = v.prevs;
    nexts = v.nexts;
    head = v.head;
    tail = v.prevs e here;
  }
  bypass_next-InBounds (some p) w = record {
    prevs = λ i h. ground (arith, v.prevs i h, v.prevs e here);
    nexts = v.nexts;
    head = v.head;
    tail = v.tail;
  }

  unlinked-InBounds : InBounds n (unlinked l e)
  unlinked-InBounds = record {
    prevs = λ i h. ground (arith, v.prevs i h);
    nexts = λ i h. ground (arith, v.nexts i h);
    head = v.head;
    tail = v.tail;
  }

  link_tail-InBounds : (o : Option ℕ) → InBounds n (link_tail o l e)
  unfolding link_tail
  link_tail-InBounds none = v
  link_tail-InBounds (some t) = record {
    prevs = v.prevs;
    nexts = λ i h. ground (arith, v.nexts i h);
    head = v.head;
    tail = v.tail;
  }

some_head :
    (n e : ℕ) (o : Option ℕ) → Within n o → e < n → (h : ℕ) × (h < n) × (or_else o e ≡ some h)
some_head n e none w h = (e, h, refl)
some_head n e (some x) w h = (x, w, refl)

pub detach-InBounds : (n : ℕ) (l : Lru) (e : ℕ) → InBounds n l → e < n → InBounds n (detach l e)
unfolding detach
detach-InBounds n l e v h =
    let a = bypass_prev-InBounds n l e v h (l.prev e) (v.prevs e h) in
    let b = bypass_next-InBounds n _ e a h _ (a.nexts e h) in unlinked-InBounds n _ e b h

-- The pointers stay within the entries in use, and the list has a head.
pub attach_tail-InBounds :
    (n : ℕ) (l : Lru) (e : ℕ)
    → InBounds n l
    → e < n
    → InBounds n (attach_tail l e) × Headed n (attach_tail l e)
unfolding attach_tail
attach_tail-InBounds n l e v h =
    let a : Lru = record l { prev = update l.prev e l.tail; next = update l.next e none } in
    let a-InBounds : InBounds n a = record {
      prevs = λ i k. ground (arith, v.prevs i k, v.tail);
      nexts = λ i k. ground (arith, v.nexts i k);
      head = v.head;
      tail = v.tail;
    } in
    let b = link_tail-InBounds n a e a-InBounds h a.tail in
    let (x, x-lt, x-head) = some_head n e (link_tail a.tail a e).head b.head h in
    (
      record { prevs = b.prevs; nexts = b.nexts; head = rw x-head x-lt; tail = h },
      (x, x-lt, x-head),
    )

Within-mono : (n m : ℕ) (o : Option ℕ) → n ≤ m → Within n o → Within m o
Within-mono n m none h w = tt
Within-mono n m (some p) h w = omega arith

-- One more entry, which is linked nowhere.
pub unlinked-grown : (n : ℕ) (l : Lru) → InBounds n l → InBounds (n + 1) (unlinked l n)
unlinked-grown n l v = record {
  prevs = λ i h. ground (arith, v.prevs i, Within-mono n (n + 1) (l.prev i));
  nexts = λ i h. ground (arith, v.nexts i, Within-mono n (n + 1) (l.next i));
  head = Within-mono n (n + 1) l.head (omega arith) v.head;
  tail = Within-mono n (n + 1) l.tail (omega arith) v.tail;
}
