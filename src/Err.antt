-- ===== src/Err.antt =====
-- components/stark_err: the error codes that every component returns.

-- `stark_err_t`, in the order of its values.
pub data Err : Type 0 where
  ok invalid_arg no_mem timeout not_found not_supported busy io state no_space : Err
