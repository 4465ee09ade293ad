-- ===== src/Recode.antt =====
-- Lab3/recode57.c and Lab3/recode57_alu.c: conversion between the Unicode encodings.
pub mod Encoding
pub mod Codepoint
pub mod Stream
mod Tests
