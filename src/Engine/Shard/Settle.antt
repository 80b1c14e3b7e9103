-- ===== src/Engine/Shard/Settle.antt =====
-- A batch that is decided on: what is settled moves on, and the checkpoint with it.
use openmemory.Prelude.{
  ℕ, ◌<◌, Bool, List, ◌++◌, some, All-append, All-imp, ◌≡◌, refl, ap, ◌∙◌, append_assoc, map-append,
  arith,
}
use openmemory.Text.{Externals}
use openmemory.Engine.Batch.{RememberRequest, commit}
use openmemory.Engine.Journal.{Serde}
use openmemory.Engine.Journal.Lines.{SerdeLaws}
use openmemory.Engine.Journal.Applied.{checkpoint_of-commit}
use openmemory.Engine.Shard.{DrainGroupKey, Shard}
use openmemory.Engine.Shard.Grouping.{gathered, gathered-append}
use openmemory.Engine.Shard.Sound.{
  Settled, Numbered, Follows, Follows-unique, Follows-append, Follows-split, Follows-IsAtMost,
  IsAtMost, numbered, numbered-settle, applied_of, applied_of-append, settle, Agrees, Sound,
}

module _ ⦃ext : Externals⦄ {O R : Type 0} where
  joined :
      {A : Type 0} (field : RememberRequest O R → List A) (k : DrainGroupKey)
      (xs ys zs ws : List (RememberRequest O R))
      → gathered field k xs ≡ gathered field k ys
      → gathered field k zs ≡ gathered field k ws
      → gathered field k (xs ++ zs) ≡ gathered field k (ys ++ ws)
  joined field k xs ys zs ws h g =
      rw (gathered-append field k xs zs, gathered-append field k ys ws, h, g) refl

  pub Agrees-append :
      (xs ys zs ws : List (RememberRequest O R))
      → Agrees xs ys
      → Agrees zs ws
      → Agrees (xs ++ zs) (ys ++ ws)
  Agrees-append xs ys zs ws h g k = (
    joined (λ r. r.observations) k xs ys zs ws (h k).0 (g k).0,
    joined (λ r. r.relations) k xs ys zs ws (h k).1 (g k).1,
  )

module _ ⦃ext : Externals⦄ {O R : Type 0} (serde : Serde (RememberRequest O R))
    (laws : SerdeLaws serde) where
  pub settle-Sound :
      (settled : List (Settled O R)) (c m : ℕ) (xs rest unwritten : List (Numbered O R)) (b : Bool)
      (reqs : List (RememberRequest O R)) (s : Shard O R)
      → c < m
      → Follows c xs m
      → Agrees reqs (applied_of (settle b xs))
      → Sound serde laws settled c (xs ++ rest) unwritten s
      → Sound serde laws
          (settled ++ settle b xs)
          m
          rest
          unwritten
          (record s { store = commit reqs (some m) s.store })
  settle-Sound settled c m xs rest unwritten b reqs s less steps same
        (count, queue, mark, agrees, (old, queued, file, buffered, buf, low)) =
      let (n, front, back) =
        Follows-split c s.next_seq xs (rest ++ s.buf) (rw (append_assoc xs rest s.buf) at queue) in
      let e : n ≡ m = Follows-unique c n m xs front steps in
      let numbers : numbered (settled ++ settle b xs) ≡ numbered settled ++ xs =
        map-append _ settled (settle b xs)
        ∙ ap (λ t. numbered settled ++ t) (numbered-settle b xs) in
      (
        rw numbers (Follows-append 0 c m (numbered settled) xs count steps),
        rw e at back,
        checkpoint_of-commit reqs m s.store (rw mark less),
        rw (applied_of-append settled (settle b xs))
            (unfold commit in Agrees-append s.store.writes (applied_of settled) reqs _ agrees same),
        (
          old ++ xs,
          queued,
          rw (append_assoc old xs, ← append_assoc xs rest queued) file,
          buffered,
          buf,
          All-append (IsAtMost m) old xs (All-imp (λ x h. omega arith) old low)
              (Follows-IsAtMost c m xs steps),
        ),
      )
