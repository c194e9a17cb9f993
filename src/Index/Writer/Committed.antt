-- ===== src/Index/Writer/Committed.antt =====
-- What the transaction behind a commit reads: IndexWriter::commit of crates/index/src/index/writer.rs and
-- Metadata::get_state of crates/index/src/index/metadata.rs.
use mathlib.Core.Path.{subst}
use ztreamer.Prelude.{
  ◌+◌, ◌≡◌, refl, sym, ap, ◌∙◌, Option, none, some, Bytes, bytes_eq_self, ok, >>=-eq-ok, ok_inj,
  ok_or, ok-step, u64_max, word_add,
}
use ztreamer.Index.Error.{overflow, panicked}
use ztreamer.Index.State.{BlockId, IndexState}
use ztreamer.Index.Metadata.{encode_state}
use ztreamer.Index.Metadata.StateRow.{IsState, decode_state-encode_state}
use ztreamer.Index.Tables.{Heed, state_key, get_state}
use ztreamer.Index.Tables.Laws.{IsHeed}
use ztreamer.Index.Writer.{Writer, commit}
use ztreamer.Index.Writer.Batch.{ok_or-some, word_add_lem}

encoded_inv : (o : Option Bytes) (bytes : Bytes) → ok_or o panicked ≡ ok bytes → o ≡ some bytes
encoded_inv none bytes h = absurd (cc h)
encoded_inv (some b) bytes h = cc h

module _ {T H M : Type 0} (lmdb : Heed T H M) where
  -- Over databases that keep their laws, a commit raises the generation by one and leaves the block tables and the rest of the state as they were, and
  -- the next transaction reads the state that was committed, where it keeps the rules of the index.
  pub get_state-commit :
      (w w' : Writer T H M) (tip : BlockId)
      → IsHeed lmdb
      → commit lmdb w ≡ ok w'
      → IsState tip w'.state
      → (get_state lmdb w'.tables.metadata ≡ ok w'.state)
        × (w'.state ≡ record w.state { generation = w.state.generation + 1 })
        × (w'.tables ≡ record w.tables { metadata = w'.tables.metadata })
  unfolding commit get_state
  get_state-commit w w' tip laws ran state =
      let (generation, p₀, h₀) =
        >>=-eq-ok (ok_or (word_add u64_max w.state.generation 1) overflow) _ ran in
      let s : IndexState = record w.state { generation = generation } in
      let (bytes, p₁, h₁) = >>=-eq-ok (ok_or (encode_state s) panicked) _ h₀ in
      let (metas, p₂, h₂) = >>=-eq-ok (lmdb.rows.put w.tables.metadata state_key bytes) _ h₁ in
      let written : Writer T H M = record {
        tables = record w.tables { metadata = metas };
        state = s;
      } in
      let same : written ≡ w' = ok_inj written w' h₂ in
      let stored : lmdb.rows.get metas state_key ≡ ok (some bytes) =
        laws.rows.get-put w.tables.metadata state_key bytes metas state_key p₂
        ∙ rw (bytes_eq_self state_key) refl in
      let good : IsState tip s = subst (λ x. IsState tip x.state) (sym same) state in
      let back : get_state lmdb metas ≡ ok s =
        ok-step _ stored
        ∙ decode_state-encode_state tip s bytes good (encoded_inv (encode_state s) bytes p₁) in
      (
        subst (λ x. get_state lmdb x.tables.metadata ≡ ok x.state) same back,
        ap (λ x. x.state) (sym same)
            ∙ ap (λ g. record w.state { generation = g })
                (word_add_lem u64_max w.state.generation 1 generation
                  (ok_or-some _ generation p₀)).0,
        subst (λ x. x.tables ≡ record w.tables { metadata = x.tables.metadata }) same refl,
      )
