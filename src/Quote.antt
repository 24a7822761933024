-- ===== src/Quote.antt =====
-- The parsers of hardware quotes: cathedral/verify/tdx_quote.py and cathedral/verify/snp.py.
pub mod Tdx
pub mod Snp
