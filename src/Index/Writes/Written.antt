-- ===== src/Index/Writes/Written.antt =====
-- A batch from its records to the tables: WriteBatch::encode of crates/index/src/index/batch.rs and
-- Index::write_encoded of crates/index/src/index/mod.rs.
use mathlib.Core.Path.{subst}
use ztreamer.Prelude.{
  ℕ, ◌+◌, ◌≤◌, ◌≡◌, refl, sym, ap, ◌∙◌, not, some, List, [], ◌∷◌, ◌++◌, arith, ◌==◌, length, last?,
  All, ok, >>=-eq-ok, guard_inv, ok_inj, try_map, try_map-nil, try_map-cons, u32_max,
}
use ztreamer.Chain.Prints.{option_bind_inv}
use ztreamer.Chain.Types.{Hash, CompactBlockRecord}
use ztreamer.Chain.Message.{to_proto}
use ztreamer.Chain.Message.RoundTrip.{IsRecord}
use ztreamer.Chain.Record.{Prost, encode}
use ztreamer.Chain.Record.RoundTrip.{decode-encode}
use ztreamer.Chain.Range.Links.{Continues}
use ztreamer.Index.State.{IndexState}
use ztreamer.Index.Builder.{WriteBatch}
use ztreamer.Index.Encoding.{
  EncodedBlock, EncodedBatch, encode_block, encode_blocks, encode_batch, encoded_blocks,
}
use ztreamer.Index.Tables.{Heed, Tables, get_state}
use ztreamer.Index.Tables.Laws.{IsHeed}
use ztreamer.Index.Writer.{Writer, start_latest, start}
use ztreamer.Index.Writer.Stored.{Pending, Holds}
use ztreamer.Index.Writes.{append, write_encoded}
use ztreamer.Index.Writes.Append.{append-Holds}
use ztreamer.Index.Writes.Hashes.{answer_after, append-hashes}
use ztreamer.Index.Writes.Replace.{ReadsBack}
use ztreamer.Index.Writes.Guards.{IsChild, IsLinked, IsLinked-append, append_guards}

some_inj : {A : Type 0} (a b : A) → some a ≡ some b → a ≡ b
some_inj a b h = cc h

module _ {T H M : Type 0} (lmdb : Heed T H M) (prost : Prost) where
  -- The records are well formed, at the heights from `p` on, and prost reads back their messages.
  abbrev Readable : ℕ → List CompactBlockRecord → Type 0
  Readable p [] = Unit
  Readable p (r ∷ rs) =
      (r.height ≡ p)
      × IsRecord r
      × (prost.decode_message (prost.encode_message (to_proto r)) ≡ some (to_proto r))
      × Readable (p + 1) rs

  Readable-fits :
      (p : ℕ) (rs : List CompactBlockRecord)
      → p ≤ u32_max + 1
      → Readable p rs
      → p + length rs ≤ u32_max + 1
  Readable-fits p [] le h = omega arith
  Readable-fits p (r ∷ rs) le (at, good, back, more) =
      omega (arith, Readable-fits (p + 1) rs (omega (arith, good.height, at)) more)

  try_map-Pending :
      (p : ℕ) (rs : List CompactBlockRecord) (bs : List EncodedBlock)
      → Readable p rs
      → try_map (encode_block prost) rs ≡ ok bs
      → Pending lmdb prost p bs rs
  unfolding encode_block
  try_map-Pending p [] bs h ran =
      subst (λ l. Pending lmdb prost p l []) (try_map-nil (encode_block prost) ran) tt
  try_map-Pending p (r ∷ rs) bs (at, good, back, more) ran =
      let (b, cs, first, rest, same) = try_map-cons (encode_block prost) r rs ran in
      let (bytes, encoded, made) = >>=-eq-ok (encode prost r) _ first in
      let block : EncodedBlock = record {
        height = r.height;
        hash = r.hash;
        previous_hash = r.previous_hash;
        bytes = bytes;
      } in
      subst (λ l. Pending lmdb prost p l (r ∷ rs)) (ap (λ c. c ∷ cs) (ok_inj block b made) ∙ same)
        (
          at,
          at,
          refl,
          decode-encode prost r bytes good back encoded,
          try_map-Pending (p + 1) rs cs more rest,
        )

  -- The first encoded block is that of the first record, with its height and its parent.
  encoded_first :
      (records : List CompactBlockRecord) (b : EncodedBlock) (bs : List EncodedBlock)
      → try_map (encode_block prost) records ≡ ok (b ∷ bs)
      → (r : CompactBlockRecord) × (rs : List CompactBlockRecord) × (records ≡ r ∷ rs)
        × (r.height ≡ b.height)
        × (r.previous_hash ≡ b.previous_hash)
  unfolding encode_block
  encoded_first [] b bs ran =
      let none_of : [] ≡ b ∷ bs = try_map-nil (encode_block prost) ran in absurd (cc none_of)
  encoded_first (r ∷ rs) b bs ran =
      let (c, cs, first, rest, same) = try_map-cons (encode_block prost) r rs ran in
      let (bytes, encoded, made) = >>=-eq-ok (encode prost r) _ first in
      let block : EncodedBlock = record {
        height = r.height;
        hash = r.hash;
        previous_hash = r.previous_hash;
        bytes = bytes;
      } in
      let is_first : c ≡ b = cc same in
      let is : block ≡ b = ok_inj block c made ∙ is_first in
      (r, rs, refl, ap (λ x. x.height) is, ap (λ x. x.previous_hash) is)

  Readable-Continues :
      (p : ℕ) (r : CompactBlockRecord) (rs : List CompactBlockRecord)
      → r.height ≡ p
      → All (ReadsBack lmdb prost) (r ∷ rs)
      → Continues r.height r.hash rs
      → Readable p (r ∷ rs)
  Readable-Continues p r [] at (good, more) linked = (at, good.0, good.1, tt)
  Readable-Continues p r (x ∷ rs) at (good, more) (above, child, linked) =
      (at, good.0, good.1, Readable-Continues (p + 1) x rs (omega (arith, above, at)) more linked)

  -- An encoded batch holds the records, under the generation of the batch.
  encode_batch_inv :
      (batch : WriteBatch) (threads : ℕ) (encoded : EncodedBatch)
      → encode_batch prost batch threads ≡ some (ok encoded)
      → (encoded.base_generation ≡ batch.base_generation)
        × (try_map (encode_block prost) batch.records ≡ ok encoded.blocks)
        × ((r : CompactBlockRecord)
            → last? batch.records ≡ some r
            → encoded.end_tree_sizes ≡ r.end_tree_sizes)
  unfolding encode_batch
  encode_batch_inv batch threads encoded ran =
      let (last, p, h) = option_bind_inv (last? batch.records) _ ran in
      let (run, q, h') = option_bind_inv (encode_blocks prost threads batch.records) _ h in
      let (blocks, done, made) = >>=-eq-ok run _ (some_inj _ _ h') in
      let batch_of : List EncodedBlock → EncodedBatch = λ bs. record {
        base_generation = batch.base_generation;
        seal_through = batch.seal_through;
        blocks = bs;
        end_tree_sizes = last.end_tree_sizes;
      } in
      let same : encoded ≡ batch_of blocks = sym (ok_inj (batch_of blocks) encoded made) in
      (
        ap (λ e. e.base_generation) same,
        encoded_blocks prost threads batch.records run q ∙ done ∙ ap (λ e. ok e.blocks) (sym same),
        λ r at.
            ap (λ e. e.end_tree_sizes) same
            ∙ ap (λ x. x.end_tree_sizes) (some_inj last r (sym p ∙ at)),
      )

  -- A batch of linked records that is appended continues the chain that the writer holds.
  written-Linked :
      (w w' : Writer T H M) (encoded : EncodedBatch) (chain records : List CompactBlockRecord)
      → Holds lmdb prost w [] chain
      → All (ReadsBack lmdb prost) records
      → IsLinked records
      → IsLinked chain
      → try_map (encode_block prost) records ≡ ok encoded.blocks
      → append lmdb prost w encoded ≡ ok w'
      → Readable (length chain) records × IsLinked (chain ++ records)
  written-Linked w w' encoded chain records holds good linked before blocks ran =
      let (b, bs, is, height, child) = append_guards lmdb prost w w' encoded chain holds ran in
      let (r, rs, same, at, parent) = encoded_first records b bs (blocks ∙ ap (λ l. ok l) is) in
      let starts : r.height ≡ length chain = at ∙ height in
      let links = subst IsLinked same linked in
      subst (λ l. Readable (length chain) l × IsLinked (chain ++ l)) (sym same)
        (
          Readable-Continues (length chain) r rs starts
              (subst (All (ReadsBack lmdb prost)) same good) links,
          IsLinked-append chain r rs holds.stored.heights starts
              (subst (IsChild (last? chain)) (sym parent) child) before links,
        )

  -- Over databases that keep their laws, let the tables hold a chain that is linked, and let the records
  -- of a batch be linked among themselves, at any heights, well formed, and with messages that prost reads
  -- back. If the index accepts the batch, its generation was that of the tables, and the tables hold the
  -- chain with the records behind it, which is linked again: the first record has the next height, and its
  -- parent is the last block of the chain. A lookup of any hash answers the height of the last record of
  -- the batch with the hash, or what it answered before.
  pub write_encoded-Holds :
      IsHeed lmdb
      → (tables : Tables T H M) (s : IndexState) (batch : WriteBatch) (threads : ℕ)
        (encoded : EncodedBatch) (chain : List CompactBlockRecord) (w' : Writer T H M) (hash : Hash)
      → get_state lmdb tables.metadata ≡ ok s
      → Holds lmdb prost (record { tables = tables; state = s }) [] chain
      → IsLinked chain
      → IsLinked batch.records
      → All (ReadsBack lmdb prost) batch.records
      → encode_batch prost batch threads ≡ some (ok encoded)
      → write_encoded lmdb prost tables encoded ≡ ok w'
      → (s.generation ≡ batch.base_generation)
        × Holds lmdb prost w' [] (chain ++ batch.records)
        × IsLinked (chain ++ batch.records)
        × (lmdb.hashes.get w'.tables.hash_to_height hash
            ≡ answer_after (lmdb.hashes.get tables.hash_to_height hash) hash batch.records)
  unfolding write_encoded start start_latest
  write_encoded-Holds laws tables s batch threads encoded chain w' hash got holds before linked good
        made ran =
      let (generation, blocks, ends) = encode_batch_inv batch threads encoded made in
      let (w, started, h) = >>=-eq-ok (start lmdb tables encoded.base_generation) _ ran in
      let (w₀, read, h₀) = >>=-eq-ok (start_latest lmdb tables) _ started in
      let (s', read', h₁) = >>=-eq-ok (get_state lmdb tables.metadata) _ read in
      let same : s ≡ s' = ok_inj s s' (sym got ∙ read') in
      let (current, h₂) = guard_inv (not (w₀.state.generation == encoded.base_generation)) _ _ h₀ in
      let opened : Writer T H M = record { tables = tables; state = s } in
      let same_state : opened ≡ w₀ =
        ap (λ x. record { tables = tables; state = x }) same ∙ ok_inj _ w₀ h₁ in
      let same_writer : opened ≡ w = same_state ∙ ok_inj w₀ w h₂ in
      let appended : append lmdb prost opened encoded ≡ ok w' =
        subst (λ x. append lmdb prost x encoded ≡ ok w') (sym same_writer) h in
      let (readable, links) =
        written-Linked opened w' encoded chain batch.records holds good linked before blocks
          appended in
      let waits = try_map-Pending (length chain) batch.records encoded.blocks readable blocks in
      (
        ap (λ x. x.state.generation) same_state ∙ ground (arith, current) ∙ generation,
        append-Holds lmdb prost laws opened w' encoded chain batch.records holds waits ends
            (Readable-fits (length chain) batch.records holds.stored.fits readable) appended,
        links,
        append-hashes lmdb prost laws opened w' encoded (length chain) batch.records hash waits
            appended,
      )
