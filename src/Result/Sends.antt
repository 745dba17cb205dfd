-- ===== src/Result/Sends.antt =====
-- The sending of a row of parameters in src/PqResultImpl.cpp, on a connection that takes it.
use rpostgres.Prelude.{
  ℕ, zero, suc, ◌<◌, ◌≤◌, ◌≡◌, ◌∙◌, ap, Bool, true, false, none, List, ◌||◌, arith, ltb,
}
use rpostgres.Prelude.Outcome.{Outcome, ok}
use rpostgres.Prelude.Step.{Step, continue, after_ok, when, return}
use rpostgres.Libpq.{Libpq, Param}
use rpostgres.Connection.{finish_query}
use rpostgres.Connection.Current.{finish_query-last}
use rpostgres.Result.{Impl, on_conn, check, row_params, send_row, bind_group, bind_row}

module _ (L : Libpq) where
  open L use {Conn, get_result, send_query, send_query_prepared, set_single_row_mode}

  send_row-sent :
      (s : Impl L) (row : List Param) (c1 : Conn)
      → s.immediate ≡ false
      → send_query_prepared row s.conn ≡ (true, c1)
      → send_row L row s ≡ (ok tt, record s { conn = c1 })
  unfolding send_row
  send_row-sent s row c1 i e = ground arith

  pub send_row-immediate :
      (s : Impl L) (row : List Param) (c1 : Conn)
      → s.immediate ≡ true
      → send_query s.sql s.conn ≡ (true, c1)
      → send_row L row s ≡ (ok tt, record s { conn = c1 })
  unfolding send_row
  send_row-immediate s row c1 i e = ground arith

  mode-set :
      (s : Impl L) (c : Conn)
      → set_single_row_mode s.conn ≡ (true, c)
      → check L "Failed to set single row mode" set_single_row_mode s
        ≡ (ok tt, record s { conn = c })
  mode-set s c e = ground arith

  -- `bind_group` sends a row, from the state that `finish_query`, if it is called, has left.
  pub bind_group-row :
      (fuel : ℕ) (s : Impl L) (row : List Param) (c c1 c2 : Conn)
      → when (s.ready || ltb 0 s.group) (on_conn L (finish_query L fuel)) s
        ≡ (ok tt, record s { conn = c })
      → row_params s.cache.nparams s.params s.group ≡ ok row
      → send_row L row (record s { conn = c; data_ready = false })
        ≡ (ok tt, record s { conn = c1; data_ready = false })
      → set_single_row_mode c1 ≡ (true, c2)
      → bind_group L fuel s ≡ (ok true, record s { conn = c2; data_ready = false })
  unfolding bind_group
  bind_group-row fuel s row c c1 c2 f r e e' =
      let s1 : Impl L = record s { conn = c } in
      let s2 : Impl L = record s1 { data_ready = false } in
      let s3 : Impl L = record s2 { conn = c1 } in
      let s4 : Impl L = record s2 { conn = c2 } in
      let mode : Step (Impl L) (Unit {0}) =
        check L "Failed to set single row mode" set_single_row_mode in
      let last : Step (Impl L) Bool = λ t. continue (mode t) (λ _. return true) in
      after_ok (when (s.ready || ltb 0 s.group) (on_conn L (finish_query L fuel)) s) tt s1 _ f
      ∙ ap
          (λ o.
            continue (o, s1)
              (λ row' t. continue (send_row L row' (record t { data_ready = false })) (λ _. last)))
          r
      ∙ after_ok (send_row L row s2) tt s3 (λ _. last) e
      ∙ after_ok (mode s3) tt s4 (λ _. return true) (mode-set s3 c2 e')

  pub bind_group-sent :
      (fuel : ℕ) (s : Impl L) (row : List Param) (c c1 c2 : Conn)
      → when (s.ready || ltb 0 s.group) (on_conn L (finish_query L fuel)) s
        ≡ (ok tt, record s { conn = c })
      → row_params s.cache.nparams s.params s.group ≡ ok row
      → s.immediate ≡ false
      → send_query_prepared row c ≡ (true, c1)
      → set_single_row_mode c1 ≡ (true, c2)
      → bind_group L fuel s ≡ (ok true, record s { conn = c2; data_ready = false })
  bind_group-sent fuel s row c c1 c2 f r i e e' =
      bind_group-row fuel s row c c1 c2 f r
        (send_row-sent (record s { conn = c; data_ready = false }) row c1 i e) e'

  finish-last :
      (fuel : ℕ) (c c' : Conn)
      → 0 < fuel
      → get_result c ≡ (none, c')
      → finish_query L fuel c ≡ (ok tt, c')
  finish-last zero c c' h g = absurd (omega (arith, h))
  finish-last (suc fuel) c c' h g =
      finish_query-last L fuel c (ap (λ x. x.0) g) ∙ ap (λ x. (ok tt, x.1)) g

  pub finish-when :
      (fuel : ℕ) (s : Impl L) (c' : Conn)
      → 0 < fuel
      → s.ready ≡ true
      → get_result s.conn ≡ (none, c')
      → when (s.ready || ltb 0 s.group) (on_conn L (finish_query L fuel)) s
        ≡ (ok tt, record s { conn = c' })
  finish-when fuel s c' h e g = ground (arith, finish-last fuel s.conn c' h g)

  pub finish-not :
      (fuel : ℕ) (s : Impl L)
      → s.ready ≡ false
      → s.group ≡ 0
      → when (s.ready || ltb 0 s.group) (on_conn L (finish_query L fuel)) s ≡ (ok tt, s)
  finish-not fuel s e g = ground arith

  pub bind_row-group :
      (fuel : ℕ) (s : Impl L) (x : Outcome Bool × Impl L)
      → s.group < s.groups
      → bind_group L fuel s ≡ x
      → bind_row L fuel s ≡ x
  unfolding bind_row
  bind_row-group fuel s x h e = ground arith

  pub bind_row-over :
      (fuel : ℕ) (s : Impl L) → s.groups ≤ s.group → bind_row L fuel s ≡ (ok s.immediate, s)
  unfolding bind_row
  bind_row-over fuel s h = ground arith
