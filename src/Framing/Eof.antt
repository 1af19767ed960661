-- ===== src/Framing/Eof.antt =====
-- `read_binary_to_eof` of shared/stdio_framing.py.
